-- ===== src/Handler/Updates/Ages.antt =====
-- What the age of an update decides.
use echonet_list.Base.{
  ℕ, ◌≤◌, ◌≡◌, refl, sym, ap, ◌∙◌, arith, Bool, false, not, List, [], ◌∷◌, Option, none, some,
  if◌then◌else◌, Bool-cases, Option-cases, inl, inr,
}
use echonet_list.Base.Keys.{Text, ◌=?◌, nat_eq, text_eq, text_beq_iff}
use echonet_list.Base.Maps.{contains, Distinct, keys, lookup}
use echonet_list.Handler.Identifiers.{Device}
use echonet_list.Handler.Updates.{
  UpdateEntry, Updates, make_device_key, call_cancel, is_stale, is_update_active, cleanup_each,
  cleanup_stale_active_updates,
}

-- The entry, unless it is stale.
abbrev pub fresh : ℕ → Option UpdateEntry → Option UpdateEntry
fresh now none = none
fresh now (some entry) = if is_stale now entry then none else some entry

keys-cleanup :
    (now : ℕ) (table : List (Text × UpdateEntry)) (called : List ℕ) (key : Text)
    → contains (keys table) key ≡ false
    → lookup key (cleanup_each now table called).0 ≡ none
unfolding cleanup_each lookup keys
keys-cleanup now [] called key h = refl
keys-cleanup now ((k, entry) ∷ table) called key h =
    let rest : lookup key
          (cleanup_each now table
            (if is_stale now entry then call_cancel entry.cancel called else called)).0
        ≡ none =
      keys-cleanup now table _ key (ground arith) in
    ground arith

lookup-cleanup_each :
    (now : ℕ) (table : List (Text × UpdateEntry)) (called : List ℕ) (key : Text)
    → Distinct (keys table)
    → lookup key (cleanup_each now table called).0 ≡ fresh now (lookup key table)
unfolding cleanup_each lookup keys
lookup-cleanup_each now [] called key h = refl
lookup-cleanup_each now ((k, entry) ∷ table) called key (hk, h) =
    let called' : List ℕ = if is_stale now entry then call_cancel entry.cancel called else called in
    elim (Bool-cases (k =? key)) [
      | inr apart ↦ ground (arith, lookup-cleanup_each now table called' key h)
      | inl here ↦
          let same : k ≡ key = (text_beq_iff _ _).0 here in
          elim (Bool-cases (is_stale now entry)) [
            | inl stale ↦
                rw (here, fresh, stale)
                  ((keys-cleanup now table (call_cancel entry.cancel called) key (rw same at hk)))
            | inr new ↦ rw (here, fresh, new) (rw here refl)
          ]
    ]

-- What an update at `key` looks like to `isUpdateActive`.
running : ℕ → Option UpdateEntry → Bool
running now none = false
running now (some entry) = not (is_stale now entry)

is_update_active-running :
    (device : Device) (now : ℕ) (u : Updates)
    → (is_update_active device false now u).0
      ≡ running now (lookup (make_device_key device) u.active_updates)
unfolding is_update_active running
is_update_active-running device now u =
    elim (Option-cases (lookup (make_device_key device) u.active_updates)) [
      | inl missing ↦ rw (is_update_active, missing) refl
      | inr (entry, present) ↦ rw (is_update_active, present) (ground arith)
    ]

running-fresh :
    (now later : ℕ) (o : Option UpdateEntry)
    → now ≤ later
    → running later (fresh now o) ≡ running later o
unfolding running is_stale
running-fresh now later none h = refl
running-fresh now later (some entry) h = ground arith

-- The cleanup of stale entries is invisible: at its own time and at any later one, `isUpdateActive`
-- answers for every device as it would without the cleanup.
pub is_update_active-cleanup_stale_active_updates :
    (device : Device) (now later : ℕ) (u : Updates)
    → Distinct (keys u.active_updates)
    → now ≤ later
    → (is_update_active device false later (cleanup_stale_active_updates now u)).0
      ≡ (is_update_active device false later u).0
unfolding cleanup_stale_active_updates
is_update_active-cleanup_stale_active_updates device now later u distinct order =
    is_update_active-running device later (cleanup_stale_active_updates now u)
    ∙ ap (running later)
        (lookup-cleanup_each now u.active_updates u.cancelled (make_device_key device) distinct)
    ∙ running-fresh now later (lookup (make_device_key device) u.active_updates) order
    ∙ sym (is_update_active-running device later u)
