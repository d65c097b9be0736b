-- ===== src/Handler/Updates.antt =====
-- The table of the updates that run (`activeUpdates`) in echonet_lite/handler/handler_communication.go,
-- and the delay between requests. Times are nanoseconds, and a cancel function is its number.
pub mod Ages
pub mod Takeover
use echonet_list.Base.{
  ℕ, ◌+◌, ◌-◌, ◌*◌, ◌/◌, ◌%◌, Bool, true, false, List, [], ◌∷◌, ◌++◌, Option, none, some, ltb, leb,
  if◌then◌else◌,
}
use echonet_list.Base.Keys.{Text, text_eq}
use echonet_list.Base.Maps.{lookup, insert, delete}
use echonet_list.EchonetLite.Object.{class_code, instance_code}
use echonet_list.Handler.Identifiers.{Device, hex_digit, hex4}

-- `activeUpdateEntry`
pub record UpdateEntry : Type 0 where
  pub start_time : ℕ
  pub cancel : Option ℕ

-- `cancelled` lists the cancel functions that were called, the last one first.
pub record Updates : Type 0 where
  pub active_updates : List (Text × UpdateEntry)
  pub cancelled : List ℕ

-- Ten minutes.
abbrev pub max_update_age : ℕ
max_update_age = 600000000000

-- `%02X` of an instance code.
unfoldable pub hex2 : ℕ → Text
hex2 i = hex_digit (i / 16 % 16) ∷ hex_digit (i % 16) ∷ []

-- `makeDeviceKey`
unfoldable pub make_device_key : Device → Text
make_device_key device =
    device.ip ++ (b':' ∷ (hex4 (class_code device.eoj) ++ (b':' ∷ hex2 (instance_code device.eoj))))

unfoldable pub call_cancel : Option ℕ → List ℕ → List ℕ
call_cancel none called = called
call_cancel (some c) called = c ∷ called

-- `time.Since(start) > MaxUpdateAge`
unfoldable pub is_stale : ℕ → UpdateEntry → Bool
is_stale now entry = ltb max_update_age (now - entry.start_time)

-- Cancels the entry and deletes its key.
unfoldable pub drop_entry : Text → UpdateEntry → Updates → Updates
drop_entry key entry u = record {
  active_updates = delete key u.active_updates;
  cancelled = call_cancel entry.cancel u.cancelled;
}

-- `cancelExistingUpdate`
unfoldable pub cancel_existing_update : Text → Updates → Updates
cancel_existing_update key u = elim (lookup key u.active_updates) [
  | none ↦ u
  | some entry ↦ drop_entry key entry u
]

-- `isUpdateActive`
unfoldable pub is_update_active : Device → Bool → ℕ → Updates → Bool × Updates
is_update_active device true now u = (false, cancel_existing_update (make_device_key device) u)
is_update_active device false now u = elim (lookup (make_device_key device) u.active_updates) [
  | none ↦ (false, u)
  | some entry ↦
      if is_stale now entry then (false, drop_entry (make_device_key device) entry u) else (true, u)
]

-- `markUpdateActive`
unfoldable pub mark_update_active : Device → Option ℕ → ℕ → Updates → Updates
mark_update_active device cancel now u = record u {
  active_updates =
      insert (make_device_key device) (record { start_time = now; cancel = cancel })
        u.active_updates;
}

-- `markUpdateInactive`
unfoldable pub mark_update_inactive : Device → Updates → Updates
mark_update_inactive device u = record u {
  active_updates = delete (make_device_key device) u.active_updates;
}

unfoldable pub cleanup_each :
    ℕ → List (Text × UpdateEntry) → List ℕ → List (Text × UpdateEntry) × List ℕ
cleanup_each now [] called = ([], called)
cleanup_each now ((key, entry) ∷ table) called =
    let stale = is_stale now entry in
    let (rest, called') =
      cleanup_each now table (if stale then call_cancel entry.cancel called else called) in
    (if stale then rest else (key, entry) ∷ rest, called')

-- `cleanupStaleActiveUpdates`
unfoldable pub cleanup_stale_active_updates : ℕ → Updates → Updates
cleanup_stale_active_updates now u =
    let (table, called) = cleanup_each now u.active_updates u.cancelled in
    record { active_updates = table; cancelled = called }
