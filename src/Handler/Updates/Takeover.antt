-- ===== src/Handler/Updates/Takeover.antt =====
-- A forced update that takes the place of one that runs.
use echonet_list.Base.{ℕ, ◌≡◌, refl, ◌∙◌, true, false, ◌∷◌, none, some}
use echonet_list.Base.Keys.{Text, text_eq}
use echonet_list.Base.Maps.{lookup, lookup-insert_self, lookup-delete, =?_refl}
use echonet_list.Handler.Identifiers.{Device}
use echonet_list.Handler.Updates.{
  UpdateEntry, Updates, make_device_key, is_update_active, cancel_existing_update, drop_entry,
  call_cancel, mark_update_active, mark_update_inactive,
}

-- The update `first` runs; a second one is forced, marks itself, and then the first one, which was
-- cancelled, comes to its deferred `markUpdateInactive`.
abbrev pub taken_over : Device → ℕ → ℕ → ℕ → ℕ → Updates → Updates
taken_over device first second t1 t2 u = mark_update_inactive device (
    mark_update_active device (some second) t2
      ((is_update_active device true t2 (mark_update_active device (some first) t1 u)).1))

-- A forced update cancels the one that runs; but when that one then ends, the entry of the second
-- is deleted, so `isUpdateActive` answers no at any later time although the second was not cancelled.
pub is_update_active-taken_over :
    (device : Device) (first second t1 t2 now : ℕ) (u : Updates)
    → ((taken_over device first second t1 t2 u).cancelled ≡ first ∷ u.cancelled)
      × (is_update_active device false now (taken_over device first second t1 t2 u)
          ≡ (false, taken_over device first second t1 t2 u))
unfolding is_update_active cancel_existing_update drop_entry call_cancel mark_update_active
    mark_update_inactive
is_update_active-taken_over device first second t1 t2 now u =
    let key : Text = make_device_key device in
    let one : UpdateEntry = record { start_time = t1; cancel = some first } in
    let gone : lookup key (taken_over device first second t1 t2 u).active_updates ≡ none =
      lookup-delete key key _ ∙ rw (=?_refl key) refl in
    (
      rw
          (
            taken_over,
            is_update_active,
            cancel_existing_update,
            lookup-insert_self key one u.active_updates,
          )
          refl,
      rw (is_update_active, gone) refl,
    )
