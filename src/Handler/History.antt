-- ===== src/Handler/History.antt =====
-- The history of the devices: echonet_lite/handler/DeviceHistory.go, without its files.
-- Times are numbers; the lists of a device are kept from the oldest entry to the newest.
pub mod Order
pub mod Laws
use echonet_list.Base.{
  ℕ, zero, suc, ◌+◌, ◌-◌, Bool, true, false, not, ◌&&◌, ◌||◌, List, [], ◌∷◌, ◌++◌, Option, none,
  some, length, drop, ◌==◌, leb, ltb, or_else, if◌then◌else◌,
}
use echonet_list.Base.Int.{ℤ, pos, negsuc}
use echonet_list.Base.Keys.{Text, ◌=?◌, text_eq, nat_eq}
use echonet_list.Base.Maps.{lookup, insert, delete}
use echonet_list.Handler.Identifiers.{Device, device_key}

pub data HistoryOrigin : Type 0 where
  notification origin_set online offline : HistoryOrigin

-- A number is none for a nil pointer.
pub record PropertyValue : Type 0 where
  pub edt : Text
  pub string : Text
  pub number : Option ℤ

-- `device` is none when its IP is nil.
pub record DeviceHistoryEntry : Type 0 where
  pub timestamp : ℕ
  pub device : Option Device
  pub epc : ℕ
  pub value : PropertyValue
  pub origin : HistoryOrigin
  pub settable : Bool

pub record HistoryQuery : Type 0 where
  pub limit : ℤ
  pub settable_only : Bool

pub record HistoryOptions : Type 0 where
  pub per_device_settable_limit : ℤ
  pub per_device_non_settable_limit : ℤ

pub record HistoryStore : Type 0 where
  pub per_device_settable_limit : ℕ
  pub per_device_limit : ℕ
  pub settable_data : List (Text × List DeviceHistoryEntry)
  pub non_settable_data : List (Text × List DeviceHistoryEntry)

unfoldable pub same_number : Option ℤ → Option ℤ → Bool
same_number none none = true
same_number none (some n) = false
same_number (some m) none = false
same_number (some (pos m)) (some (pos n)) = m == n
same_number (some (pos m)) (some (negsuc n)) = false
same_number (some (negsuc m)) (some (pos n)) = false
same_number (some (negsuc m)) (some (negsuc n)) = m == n

-- `PropertyValue.Equals`
unfoldable pub equals : PropertyValue → PropertyValue → Bool
equals v w = v.edt =? w.edt && v.string =? w.string && same_number v.number w.number

-- The option if it is positive, and else the default.
unfoldable pub limit_or : ℤ → ℕ → ℕ
limit_or (pos zero) default = default
limit_or (pos (suc n)) default = suc n
limit_or (negsuc n) default = default

-- `NewMemoryDeviceHistoryStore`, with the defaults of `DefaultHistoryOptions`.
unfoldable pub new_history_store : HistoryOptions → HistoryStore
new_history_store o = record {
  per_device_settable_limit = limit_or o.per_device_settable_limit 200;
  per_device_limit = limit_or o.per_device_non_settable_limit 100;
  settable_data = [];
  non_settable_data = [];
}

unfoldable pub trim_to_limit : HistoryStore → List DeviceHistoryEntry → ℕ → List DeviceHistoryEntry
trim_to_limit s entries custom_limit =
    let limit = if ltb 0 custom_limit then custom_limit else s.per_device_limit in
    if ltb 0 limit && ltb limit (length entries)
    then drop (length entries - limit) entries
    else entries

unfoldable pub settable_entries : Text → HistoryStore → List DeviceHistoryEntry
settable_entries key s = or_else (lookup key s.settable_data) []

unfoldable pub non_settable_entries : Text → HistoryStore → List DeviceHistoryEntry
non_settable_entries key s = or_else (lookup key s.non_settable_data) []

unfoldable pub record_entry : DeviceHistoryEntry → HistoryStore → HistoryStore
record_entry entry s = elim entry.device [
  | none ↦ s
  | some device ↦
      let key = device_key device in
      if entry.settable
      then record s {
        settable_data =
            insert key
              (trim_to_limit s (settable_entries key s ++ (entry ∷ [])) s.per_device_settable_limit)
              s.settable_data;
      }
      else record s {
        non_settable_data =
            insert key
              (trim_to_limit s (non_settable_entries key s ++ (entry ∷ [])) s.per_device_limit)
              s.non_settable_data;
      }
]

unfoldable pub merge_entries_by_timestamp :
    List DeviceHistoryEntry → List DeviceHistoryEntry → List DeviceHistoryEntry
merge_entries_by_timestamp [] b = b
merge_entries_by_timestamp (x ∷ a) [] = x ∷ a
merge_entries_by_timestamp (x ∷ a) (y ∷ b) = elim (leb x.timestamp y.timestamp) [
  | true ↦ x ∷ merge_entries_by_timestamp a (y ∷ b)
  | false ↦ y ∷ merge_entries_by_timestamp (x ∷ a) b
]

unfoldable pub reverse_entries : List DeviceHistoryEntry → List DeviceHistoryEntry
reverse_entries [] = []
reverse_entries (e ∷ es) = reverse_entries es ++ (e ∷ [])

unfoldable pub all_entries : Text → HistoryStore → List DeviceHistoryEntry
all_entries key s = merge_entries_by_timestamp (settable_entries key s) (non_settable_entries key s)

-- The loop of `Query`, on the entries that are left from the newest to the oldest.
unfoldable pub query_loop :
    ℕ → List DeviceHistoryEntry → List DeviceHistoryEntry → List DeviceHistoryEntry
query_loop limit result [] = result
query_loop limit result (entry ∷ entries) =
    let result' = result ++ (entry ∷ []) in
    let rest = query_loop limit result' entries in
    if leb limit (length result') then result' else rest

unfoldable pub query : Device → HistoryQuery → HistoryStore → List DeviceHistoryEntry
query device q s =
    let key = device_key device in
    let entries = if q.settable_only then settable_entries key s else all_entries key s in
    query_loop (limit_or q.limit (length entries)) [] (reverse_entries entries)

unfoldable pub clear : Device → HistoryStore → HistoryStore
clear device s = record s {
  settable_data = delete (device_key device) s.settable_data;
  non_settable_data = delete (device_key device) s.non_settable_data;
}

unfoldable pub per_device_total_limit : HistoryStore → ℕ
per_device_total_limit s = s.per_device_settable_limit + s.per_device_limit

unfoldable pub is_set_origin : HistoryOrigin → Bool
is_set_origin notification = false
is_set_origin origin_set = true
is_set_origin online = false
is_set_origin offline = false

-- The loop of `IsDuplicateNotification`, from the newest entry on; it stops at the first entry
-- before `now - within`.
unfoldable pub duplicate_loop : ℕ → ℕ → ℕ → PropertyValue → List DeviceHistoryEntry → Bool
duplicate_loop now within epc value [] = false
duplicate_loop now within epc value (e ∷ es) =
    let rest = duplicate_loop now within epc value es in
    if ltb (e.timestamp + within) now
    then false
    else if is_set_origin e.origin && e.epc == epc && equals e.value value
    then true
    else rest

unfoldable pub is_duplicate_notification : Device → ℕ → PropertyValue → ℕ → ℕ → HistoryStore → Bool
is_duplicate_notification device epc value within now s =
    duplicate_loop now within epc value (reverse_entries (all_entries (device_key device) s))
