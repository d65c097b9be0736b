-- ===== src/Handler/History/Order.antt =====
-- The order of the entries: merging, and the newest first.
use echonet_list.Base.{
  ℕ, zero, suc, ◌+◌, ◌≤◌, ◌≡◌, refl, sym, ap, ◌∙◌, arith, Bool, true, false, not, ◌&&◌, ◌||◌, List,
  [], ◌∷◌, ◌++◌, length, length-append, take, any, leb, ltb, ◌==◌, All, All-append, if◌then◌else◌,
  Bool-cases, inl, inr,
}
use mathlib.Core.List.{append-nil, append_assoc}
use echonet_list.Base.Int.{ℤ, pos, negsuc}
use echonet_list.Handler.Identifiers.{Device, device_key}
use echonet_list.Handler.History.{
  DeviceHistoryEntry, HistoryQuery, HistoryStore, PropertyValue, merge_entries_by_timestamp,
  reverse_entries, query_loop, query, limit_or, settable_entries, non_settable_entries, all_entries,
  duplicate_loop, is_duplicate_notification, is_set_origin, equals,
}

-- No entry is younger than the ones behind it.
abbrev pub IsOrdered : List DeviceHistoryEntry → Type 0
IsOrdered [] = Unit {0}
IsOrdered (e ∷ es) = All (λ f. e.timestamp ≤ f.timestamp) es × IsOrdered es

All-weaken :
    (s t : ℕ) (es : List DeviceHistoryEntry)
    → s ≤ t
    → All (λ f. t ≤ f.timestamp) es
    → All (λ f. s ≤ f.timestamp) es
All-weaken s t [] h k = tt
All-weaken s t (e ∷ es) h (ke, k) = (omega arith, All-weaken s t es h k)

merge_left :
    (x y : DeviceHistoryEntry) (a b : List DeviceHistoryEntry)
    → leb x.timestamp y.timestamp ≡ true
    → merge_entries_by_timestamp (x ∷ a) (y ∷ b) ≡ x ∷ merge_entries_by_timestamp a (y ∷ b)
unfolding merge_entries_by_timestamp
merge_left x y a b h = rw (merge_entries_by_timestamp, h) refl

merge_right :
    (x y : DeviceHistoryEntry) (a b : List DeviceHistoryEntry)
    → leb x.timestamp y.timestamp ≡ false
    → merge_entries_by_timestamp (x ∷ a) (y ∷ b) ≡ y ∷ merge_entries_by_timestamp (x ∷ a) b
unfolding merge_entries_by_timestamp
merge_right x y a b h = rw (merge_entries_by_timestamp, h) refl

All-merge :
    (t : ℕ) (a b : List DeviceHistoryEntry)
    → All (λ f. t ≤ f.timestamp) a
    → All (λ f. t ≤ f.timestamp) b
    → All (λ f. t ≤ f.timestamp) (merge_entries_by_timestamp a b)
unfolding merge_entries_by_timestamp
All-merge t [] b h k = k
All-merge t (x ∷ a) [] h k = h
All-merge t (x ∷ a) (y ∷ b) (hx, h) (ky, k) = elim (Bool-cases (leb x.timestamp y.timestamp)) [
  | inl e ↦ rw (merge_left x y a b e) (hx, All-merge t a (y ∷ b) h (ky, k))
  | inr e ↦ rw (merge_right x y a b e) (ky, All-merge t (x ∷ a) b (hx, h) k)
]

-- Merging two lists from the oldest to the newest gives a list from the oldest to the newest.
merge-IsOrdered :
    (a b : List DeviceHistoryEntry)
    → IsOrdered a
    → IsOrdered b
    → IsOrdered (merge_entries_by_timestamp a b)
unfolding merge_entries_by_timestamp
merge-IsOrdered [] b h k = k
merge-IsOrdered (x ∷ a) [] h k = h
merge-IsOrdered (x ∷ a) (y ∷ b) (hx, h) (ky, k) = elim (Bool-cases (leb x.timestamp y.timestamp)) [
  | inl e ↦ rw (merge_left x y a b e) (
    All-merge x.timestamp a (y ∷ b) hx
        (ground arith, All-weaken x.timestamp y.timestamp b (ground arith) ky),
    merge-IsOrdered a (y ∷ b) h (ky, k),
  )
  | inr e ↦ rw (merge_right x y a b e) (
    All-merge y.timestamp (x ∷ a) b
        (ground arith, All-weaken y.timestamp x.timestamp a (ground arith) hx) ky,
    merge-IsOrdered (x ∷ a) b (hx, h) k,
  )
]

query_loop-take :
    (n : ℕ) (r es : List DeviceHistoryEntry)
    → query_loop (length r + suc n) r es ≡ r ++ take (suc n) es
unfolding query_loop
query_loop-take n r [] = sym (append-nil r)
query_loop-take zero r (e ∷ es) =
    let full : leb (length r + 1) (length (r ++ (e ∷ []))) ≡ true =
      ground (arith, length-append r (e ∷ [])) in
    rw full refl
query_loop-take (suc n) r (e ∷ es) =
    let more : leb (length r + suc (suc n)) (length (r ++ (e ∷ []))) ≡ false =
      ground (arith, length-append r (e ∷ [])) in
    let bound : length r + suc (suc n) ≡ length (r ++ (e ∷ [])) + suc n =
      omega (arith, length-append r (e ∷ [])) in
    rw more (
      ap (λ k. query_loop k (r ++ (e ∷ [])) es) bound
      ∙ query_loop-take n (r ++ (e ∷ [])) es
      ∙ append_assoc r (e ∷ []) (take (suc n) es))

positive : (n : ℕ) (es : List DeviceHistoryEntry) → query_loop (suc n) [] es ≡ take (suc n) es
positive n es =
    let bound : suc n ≡ length {A = DeviceHistoryEntry} [] + suc n = omega arith in
    ap (λ k. query_loop k [] es) bound ∙ query_loop-take n [] es

within_limit :
    (limit : ℤ) (es rs : List DeviceHistoryEntry)
    → length rs ≡ length es
    → query_loop (limit_or limit (length es)) [] rs ≡ take (limit_or limit (length es)) rs
unfolding limit_or query_loop
within_limit (pos zero) [] [] e = refl
within_limit (pos zero) [] (r ∷ rs) e = absurd (omega arith)
within_limit (pos zero) (x ∷ es) rs e = positive (length es) rs
within_limit (pos (suc n)) es rs e = positive n rs
within_limit (negsuc n) [] [] e = refl
within_limit (negsuc n) [] (r ∷ rs) e = absurd (omega arith)
within_limit (negsuc n) (x ∷ es) rs e = positive (length es) rs

length-reverse_entries : (es : List DeviceHistoryEntry) → length (reverse_entries es) ≡ length es
unfolding reverse_entries
length-reverse_entries [] = refl
length-reverse_entries (e ∷ es) =
    omega (arith, length-append (reverse_entries es) (e ∷ []), length-reverse_entries es)

-- The entries that a query selects from.
abbrev pub selected : Device → HistoryQuery → HistoryStore → List DeviceHistoryEntry
selected device q s =
    if q.settable_only
    then settable_entries (device_key device) s
    else all_entries (device_key device) s

-- `Query` returns the newest entries, the newest first: as many as the limit says, and all of them
-- for a limit that is not positive.
query-take :
    (device : Device) (q : HistoryQuery) (s : HistoryStore)
    → query device q s
      ≡ take
          (limit_or q.limit (length (selected device q s)))
          (reverse_entries (selected device q s))
unfolding query
query-take device q s =
    within_limit q.limit (selected device q s) (reverse_entries (selected device q s))
      (length-reverse_entries (selected device q s))

-- A Set of the property to the value.
abbrev pub is_that_set : ℕ → PropertyValue → DeviceHistoryEntry → Bool
is_that_set epc value e = is_set_origin e.origin && e.epc == epc && equals e.value value

-- Not before `now - within`.
abbrev pub is_recent : ℕ → ℕ → DeviceHistoryEntry → Bool
is_recent now within e = not (ltb (e.timestamp + within) now)

duplicate_loop-append :
    (now within epc : ℕ) (value : PropertyValue) (rs : List DeviceHistoryEntry)
    (e : DeviceHistoryEntry)
    → All (λ r. e.timestamp ≤ r.timestamp) rs
    → duplicate_loop now within epc value (rs ++ (e ∷ [])) ≡ (
        duplicate_loop now within epc value rs || is_recent now within e && is_that_set epc value e)
unfolding duplicate_loop
duplicate_loop-append now within epc value [] e h = ground arith
duplicate_loop-append now within epc value (r ∷ rs) e (hr, h) =
    let rest : _ = duplicate_loop-append now within epc value rs e h in
    elim (Bool-cases (ltb (r.timestamp + within) now)) [
      | inl old ↦
          let older : ltb (e.timestamp + within) now ≡ true = ground arith in rw (old, older) refl
      | inr fresh ↦ elim (Bool-cases (is_that_set epc value r)) [
        | inl hit ↦ rw (fresh, hit) refl
        | inr miss ↦ rw (fresh, miss) rest
      ]
    ]

All-reverse_entries :
    (P : DeviceHistoryEntry → Type 0) (es : List DeviceHistoryEntry)
    → All P es
    → All P (reverse_entries es)
unfolding reverse_entries
All-reverse_entries P [] h = tt
All-reverse_entries P (e ∷ es) (he, h) =
    All-append P (reverse_entries es) (e ∷ []) (All-reverse_entries P es h) (he, tt)

duplicate_loop-any :
    (now within epc : ℕ) (value : PropertyValue) (es : List DeviceHistoryEntry)
    → IsOrdered es
    → duplicate_loop now within epc value (reverse_entries es)
      ≡ any (λ e. is_recent now within e && is_that_set epc value e) es
unfolding reverse_entries
duplicate_loop-any now within epc value [] h = unfold duplicate_loop in refl
duplicate_loop-any now within epc value (e ∷ es) (he, h) =
    duplicate_loop-append now within epc value (reverse_entries es) e
      (All-reverse_entries (λ r. e.timestamp ≤ r.timestamp) es he)
    ∙ rw (duplicate_loop-any now within epc value es h) (ground arith)

-- Merging loses no entry and adds none.
any-merge :
    (p : DeviceHistoryEntry → Bool) (a b : List DeviceHistoryEntry)
    → any p (merge_entries_by_timestamp a b) ≡ (any p a || any p b)
unfolding merge_entries_by_timestamp
any-merge p [] b = refl
any-merge p (x ∷ a) [] = ground arith
any-merge p (x ∷ a) (y ∷ b) = elim (Bool-cases (leb x.timestamp y.timestamp)) [
  | inl e ↦ rw (merge_left x y a b e) (ground (arith, any-merge p a (y ∷ b)))
  | inr e ↦ rw (merge_right x y a b e) (ground (arith, any-merge p (x ∷ a) b))
]

-- When the two lists of a device run from the oldest entry to the newest, a notification counts as a
-- duplicate exactly when some entry of the one list or of the other, in the time window, is a Set of
-- the same property to an equal value: merging loses no entry and stopping at the first old one
-- misses none.
pub is_duplicate_notification-any :
    (device : Device) (epc : ℕ) (value : PropertyValue) (within now : ℕ) (s : HistoryStore)
    → IsOrdered (settable_entries (device_key device) s)
    → IsOrdered (non_settable_entries (device_key device) s)
    → is_duplicate_notification device epc value within now s ≡ (
        any
          (λ e. is_recent now within e && is_that_set epc value e)
          (settable_entries (device_key device) s)
        || any
            (λ e. is_recent now within e && is_that_set epc value e)
            (non_settable_entries (device_key device) s))
unfolding is_duplicate_notification all_entries
is_duplicate_notification-any device epc value within now s h k =
    duplicate_loop-any now within epc value (all_entries (device_key device) s) (
      merge-IsOrdered (settable_entries (device_key device) s)
        (non_settable_entries (device_key device) s) h k)
    ∙ any-merge (λ e. is_recent now within e && is_that_set epc value e)
        (settable_entries (device_key device) s) (non_settable_entries (device_key device) s)
