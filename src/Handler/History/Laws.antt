-- ===== src/Handler/History/Laws.antt =====
-- The bounds of the history, and what a record leaves alone.
use echonet_list.Base.{
  ℕ, zero, suc, ◌-◌, ◌≤◌, ◌<◌, ◌≡◌, ◌≢◌, refl, arith, true, false, List, [], some, length,
  length-drop, ltb, or_else, Bool-cases, Option-cases, inl, inr,
}
use echonet_list.Base.Int.{ℤ, pos, negsuc}
use echonet_list.Base.Keys.{Text, ◌=?◌, text_eq, text_beq_iff}
use echonet_list.Base.Maps.{lookup, insert, lookup-insert}
use echonet_list.Handler.Identifiers.{Device, device_key}
use echonet_list.Handler.History.{
  DeviceHistoryEntry, HistoryQuery, HistoryOptions, HistoryStore, limit_or, new_history_store,
  trim_to_limit, settable_entries, non_settable_entries, all_entries, record_entry, query,
}

-- Positive limits, which every device's lists keep to.
abbrev pub IsBounded : HistoryStore → Type 0
IsBounded s =
    (0 < s.per_device_settable_limit)
    × (0 < s.per_device_limit)
    × ((key : Text) → length (settable_entries key s) ≤ s.per_device_settable_limit)
    × ((key : Text) → length (non_settable_entries key s) ≤ s.per_device_limit)

length-trim_to_limit :
    (s : HistoryStore) (entries : List DeviceHistoryEntry) (limit : ℕ)
    → 0 < limit
    → length (trim_to_limit s entries limit) ≤ limit
unfolding trim_to_limit
length-trim_to_limit s entries limit h =
    let given : ltb 0 limit ≡ true = ground arith in
    elim (Bool-cases (ltb limit (length entries))) [
      | inl long ↦
          rw (given, long)
            (rw given
              (omega (arith, length-drop (length entries - limit) entries, long_enough long)))
      | inr short ↦ rw (given, short) (rw given (ground arith))
    ]
  where
    long_enough : ltb limit (length entries) ≡ true → limit < length entries
    long_enough e = ground arith

lookup_bound :
    (key key' : Text) (xs : List DeviceHistoryEntry) (m : List (Text × List DeviceHistoryEntry))
    (n : ℕ)
    → length xs ≤ n
    → length (or_else (lookup key' m) []) ≤ n
    → length (or_else (lookup key' (insert key xs m)) []) ≤ n
lookup_bound key key' xs m n h k = elim (Bool-cases (key =? key')) [
  | inl e ↦ rw (lookup-insert key key' xs m, e) h
  | inr e ↦ rw (lookup-insert key key' xs m, e) k
]

-- A new store is bounded, whatever its options are.
pub new_history_store-IsBounded : (o : HistoryOptions) → IsBounded (new_history_store o)
unfolding limit_or new_history_store settable_entries non_settable_entries lookup
new_history_store-IsBounded o = (
  positive o.per_device_settable_limit 200 (omega arith),
  positive o.per_device_non_settable_limit 100 (omega arith),
  (λ key. omega arith),
  λ key. omega arith,
)
  where
    positive : (l : ℤ) (default : ℕ) → 0 < default → 0 < limit_or l default
    positive (pos zero) default h = h
    positive (pos (suc n)) default h = omega arith
    positive (negsuc n) default h = h

-- A record keeps the lists of every device within their limits.
pub record_entry-IsBounded :
    (entry : DeviceHistoryEntry) (s : HistoryStore) → IsBounded s → IsBounded (record_entry entry s)
unfolding record_entry settable_entries non_settable_entries
record_entry-IsBounded entry s (h1, h2, h3, h4) = elim (Option-cases entry.device) [
  | inl nil ↦ rw nil (h1, h2, h3, h4)
  | inr (device, there) ↦ elim (Bool-cases entry.settable) [
    | inl settable ↦
        rw (there, settable)
          (
            h1,
            h2,
            (λ key.
                lookup_bound (device_key device) key _ s.settable_data s.per_device_settable_limit
                  (length-trim_to_limit s _ s.per_device_settable_limit h1) (h3 key)),
            h4,
          )
    | inr other ↦
        rw (there, other)
          (
            h1,
            h2,
            h3,
            λ key.
                lookup_bound (device_key device) key _ s.non_settable_data s.per_device_limit
                  (length-trim_to_limit s _ s.per_device_limit h2) (h4 key),
          )
  ]
]

-- Recording a property that is not settable leaves what a query for settable ones returns: it pushes
-- no such entry out.
pub query-record_entry_settable :
    (entry : DeviceHistoryEntry) (device : Device) (q : HistoryQuery) (s : HistoryStore)
    → entry.settable ≡ false
    → q.settable_only ≡ true
    → query device q (record_entry entry s) ≡ query device q s
unfolding query record_entry settable_entries
query-record_entry_settable entry device q s other only = elim (Option-cases entry.device) [
  | inl nil ↦ rw nil refl
  | inr (d, there) ↦ rw (there, other, only) refl
]

kept :
    (key key' : Text) (xs : List DeviceHistoryEntry) (m : List (Text × List DeviceHistoryEntry))
    → (key =? key') ≡ false
    → or_else (lookup key' (insert key xs m)) [] ≡ or_else (lookup key' m) []
kept key key' xs m ne = rw (lookup-insert key key' xs m, ne) refl

settable_kept :
    (entry : DeviceHistoryEntry) (recorded : Device) (key : Text) (s : HistoryStore)
    → entry.device ≡ some recorded
    → (device_key recorded =? key) ≡ false
    → settable_entries key (record_entry entry s) ≡ settable_entries key s
unfolding settable_entries record_entry
settable_kept entry recorded key s there apart = elim (Bool-cases entry.settable) [
  | inl e ↦ rw (there, e) (kept (device_key recorded) key _ s.settable_data apart)
  | inr e ↦ rw (there, e) refl
]

non_settable_kept :
    (entry : DeviceHistoryEntry) (recorded : Device) (key : Text) (s : HistoryStore)
    → entry.device ≡ some recorded
    → (device_key recorded =? key) ≡ false
    → non_settable_entries key (record_entry entry s) ≡ non_settable_entries key s
unfolding non_settable_entries record_entry
non_settable_kept entry recorded key s there apart = elim (Bool-cases entry.settable) [
  | inl e ↦ rw (there, e) refl
  | inr e ↦ rw (there, e) (kept (device_key recorded) key _ s.non_settable_data apart)
]

-- A record of one device leaves what a query of a device with another key returns.
query-record_entry_other :
    (entry : DeviceHistoryEntry) (recorded device : Device) (q : HistoryQuery) (s : HistoryStore)
    → entry.device ≡ some recorded
    → device_key recorded ≢ device_key device
    → query device q (record_entry entry s) ≡ query device q s
unfolding query all_entries
query-record_entry_other entry recorded device q s there ne =
    let apart : (device_key recorded =? device_key device) ≡ false =
      ground (arith, text_beq_iff (device_key recorded) (device_key device)) in
    rw
      (
        settable_kept entry recorded (device_key device) s there apart,
        non_settable_kept entry recorded (device_key device) s there apart,
      )
      refl
