-- ===== src/Handler/Receive/Packets.antt =====
-- Which packets the parts of the handler send.
use echonet_list.Base.{
  ℕ, ◌≡◌, refl, sym, ap, ◌∙◌, Bool, true, false, List, [], ◌∷◌, ◌++◌, All, All-append, List-cases,
  append-nil, append_assoc, if◌then◌else◌, Bool-cases, inl, inr,
}
use echonet_list.Base.Keys.{Text, nat_eq}
use echonet_list.Base.Maps.{contains}
use echonet_list.EchonetLite.Esv
use echonet_list.EchonetLite.Esv.{response_esvs}
use echonet_list.EchonetLite.Object.{node_profile_object}
use echonet_list.EchonetLite.Property.{Property}
use echonet_list.EchonetLite.Message.{Message}
use echonet_list.Handler.LocalObjects.{set_properties}
use echonet_list.Handler.Session.{new_tid}
use echonet_list.Handler.Node.{
  Packet, unicast, multicast, Node, send_message, response_to, send_response, broadcast,
}
use echonet_list.Handler.Receive.{announced, send_announcement, set_local}

-- What may be sent for a request of `eoj` that `ip` sent: to `ip`, an answer of a service that the
-- request allows, with the request's transaction and its two objects exchanged; to all, an INF of `eoj`.
abbrev pub Allowed : Text → ℕ → Message → Packet → Type 0
Allowed ip eoj m (unicast to r) =
    (to ≡ ip)
    × (r.tid ≡ m.tid)
    × (r.seoj ≡ eoj)
    × (r.deoj ≡ m.seoj)
    × (contains (response_esvs m.esv) r.esv ≡ true)
Allowed ip eoj m (multicast r) = (r.seoj ≡ eoj) × (r.esv ≡ Esv.inf) × (r.deoj ≡ node_profile_object)

-- The packets of `n'` are those of `n` and some more, each of which is allowed.
abbrev pub Sends : Text → ℕ → Message → Node → Node → Type 0
Sends ip eoj m n n' = (new : List Packet) × (n'.sent ≡ n.sent ++ new) × All (Allowed ip eoj m) new

-- The services that `onReceiveMessage` serves.
abbrev pub requests : List ℕ
requests = Esv.get ∷ Esv.set_c ∷ Esv.set_i ∷ Esv.set_get ∷ Esv.inf_req ∷ []

pub Sends-none : (ip : Text) (eoj : ℕ) (m : Message) (n : Node) → Sends ip eoj m n n
Sends-none ip eoj m n = ([], sym (append-nil n.sent), tt)

pub Sends-then :
    (ip : Text) (eoj : ℕ) (m : Message) (a b c : Node)
    → Sends ip eoj m a b
    → Sends ip eoj m b c
    → Sends ip eoj m a c
Sends-then ip eoj m a b c (xs, e, hx) (ys, e', hy) = (
  xs ++ ys,
  e' ∙ ap (λ l. l ++ ys) e ∙ append_assoc a.sent xs ys,
  All-append (Allowed ip eoj m) xs ys hx hy,
)

send_message-Sends :
    (works : Packet → Bool) (ip : Text) (eoj : ℕ) (m : Message) (p : Packet) (n : Node)
    → Allowed ip eoj m p
    → Sends ip eoj m n (send_message works p n).1
unfolding send_message
send_message-Sends works ip eoj m p n h = elim (Bool-cases (works p)) [
  | inl takes ↦ (p ∷ [], rw takes refl, (h, tt))
  | inr fails ↦ ([], rw fails (sym (append-nil n.sent)), tt)
]

pub send_response-Sends :
    (works : Packet → Bool) (ip : Text) (m : Message) (esv : ℕ) (ps qs : List Property) (n : Node)
    → contains (response_esvs m.esv) esv ≡ true
    → Sends ip m.deoj m n (send_response works ip m esv ps qs n).1
unfolding send_response response_to
send_response-Sends works ip m esv ps qs n h =
    send_message-Sends works ip m.deoj m (unicast ip (response_to m esv ps qs)) n
      (refl, refl, refl, refl, h)

pub broadcast-Sends :
    (works : Packet → Bool) (ip : Text) (m : Message) (eoj : ℕ) (ps : List Property) (n : Node)
    → Sends ip eoj m n (broadcast works eoj Esv.inf ps n).1
unfolding broadcast
broadcast-Sends works ip m eoj ps n =
    send_message-Sends works ip eoj m _ (record n { session = (new_tid n.session).1 })
      (refl, refl, refl)

send_announcement-Sends :
    (works : Packet → Bool) (ip : Text) (m : Message) (eoj : ℕ) (ps : List Property) (n : Node)
    → Sends ip eoj m n (send_announcement works eoj ps n)
unfolding send_announcement
send_announcement-Sends works ip m eoj ps n = elim (List-cases (announced eoj ps n.local_devices)) [
  | inl none_changed ↦ rw (send_announcement, none_changed) (Sends-none ip eoj m n)
  | inr (q, qs, some_changed) ↦
      rw (send_announcement, some_changed) (broadcast-Sends works ip m eoj (q ∷ qs) n)
]

pub set_local-Sends :
    (works : Packet → Bool) (ip : Text) (m : Message) (eoj : ℕ) (ps : List Property) (n : Node)
    → Sends ip eoj m n (set_local works eoj ps n).2
unfolding set_local
set_local-Sends works ip m eoj ps n =
    let (reps, success, d) = set_properties eoj ps n.local_devices in
    let n' : Node = record n { local_devices = d } in
    elim success as (λ b. Sends ip eoj m n (if b then send_announcement works eoj ps n' else n')) [
      | true ↦ send_announcement-Sends works ip m eoj ps n'
      | false ↦ Sends-none ip eoj m n
    ]
