-- ===== src/Handler/Core/Fanout.antt =====
-- What subscribers that do not read are left with.
use echonet_list.Base.{
  ℕ, zero, suc, ◌-◌, ◌≡◌, refl, sym, ap, ◌∙◌, arith, true, false, List, [], ◌∷◌, ◌++◌, append-nil,
  append_assoc, length, leb, if◌then◌else◌, inl, inr, ◌⊎◌,
}
use echonet_list.Handler.Core.{
  DeviceNotification, offer, Subscriber, Subscribers, deliver, fanout, fanout_all,
}

-- The subscriber after all of the notifications went in.
abbrev pub filled : List DeviceNotification → Subscriber → Subscriber
filled ns s = record s {
  channel = record { room = s.channel.room - length ns; sent = s.channel.sent ++ ns };
}

-- The subscribers that have room for all of the notifications, filled with them.
abbrev pub served : List DeviceNotification → List Subscriber → List Subscriber
served ns [] = []
served ns (s ∷ subscribers) =
    if leb (length ns) s.channel.room
    then filled ns s ∷ served ns subscribers
    else served ns subscribers

served_none : (subscribers : List Subscriber) → served [] subscribers ≡ subscribers
served_none [] = refl
served_none (s ∷ subscribers) =
    let room : s.channel.room - 0 ≡ s.channel.room = omega arith in
    let sent : s.channel.sent ++ [] ≡ s.channel.sent = append-nil s.channel.sent in
    let fits : leb 0 s.channel.room ≡ true = ground arith in
    rw (room, sent, fits) (ap (◌∷◌ s) (served_none subscribers))

room_cases : (room : ℕ) → (room ≡ 0) ⊎ ((m : ℕ) × (room ≡ suc m))
room_cases zero = inl refl
room_cases (suc m) = inr (m, refl)

served_step :
    (n : DeviceNotification) (ns : List DeviceNotification) (subscribers : List Subscriber)
    → served ns (deliver n subscribers).0 ≡ served (n ∷ ns) subscribers
unfolding deliver offer
served_step n ns [] = refl
served_step n ns (s ∷ subscribers) = elim (room_cases s.channel.room) [
  | inl full ↦
      let no_room : leb (suc (length ns)) 0 ≡ false = ground arith in
      rw (deliver, full) (rw no_room (served_step n ns subscribers))
  | inr (m, room) ↦
      let same_test : leb (suc (length ns)) (suc m) ≡ leb (length ns) m = ground arith in
      let left : suc m - suc (length ns) ≡ m - length ns = omega arith in
      let order : (s.channel.sent ++ (n ∷ [])) ++ ns ≡ s.channel.sent ++ (n ∷ ns) =
        append_assoc s.channel.sent (n ∷ []) ns in
      let offered : offer n s.channel ≡ record { room = m; sent = s.channel.sent ++ (n ∷ []) } =
        rw (offer, room) refl in
      rw (deliver, room)
        (rw (same_test, left, offered, order)
          (ap
            (λ r.
              if leb (length ns) m
              then record s {
                channel = record { room = m - length ns; sent = s.channel.sent ++ (n ∷ ns) };
              }
                ∷ r
              else r)
            (served_step n ns subscribers)))
]

-- Notifications that go out while nobody reads stay, in their order and behind what was there, with
-- exactly the subscribers whose buffers have room for all of them; every other subscriber is dropped.
pub fanout_all_lem :
    (ns : List DeviceNotification) (s : Subscribers)
    → (fanout_all ns s).notification_subscribers ≡ served ns s.notification_subscribers
unfolding fanout_all fanout
fanout_all_lem [] s = sym (served_none s.notification_subscribers)
fanout_all_lem (n ∷ ns) s =
    fanout_all_lem ns (fanout n s) ∙ served_step n ns s.notification_subscribers
