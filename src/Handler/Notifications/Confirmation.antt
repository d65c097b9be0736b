-- ===== src/Handler/Notifications/Confirmation.antt =====
-- The answer to a notification that wants one.
use echonet_list.Base.{
  ℕ, ◌≡◌, refl, sym, ap, false, List, [], ◌∷◌, ◌++◌, Option, ok, ◌==◌, ◌&&◌, if◌then◌else◌, All,
  append-nil, Bool-cases, inl, inr,
}
use echonet_list.Base.Keys.{Text, nat_eq}
use echonet_list.EchonetLite.Esv
use echonet_list.EchonetLite.Message.{Message}
use echonet_list.Handler.LocalObjects.{find_eoj}
use echonet_list.Handler.Session.{signal_device_alive}
use echonet_list.Handler.Node.{
  Packet, unicast, Node, CallbackError, send_message, send_response, response_to,
}
use echonet_list.Handler.Notifications.{
  Environment, without_values, confirm, inf_body, inf_for, on_inf_message,
}
use echonet_list.Handler.Notifications.Requests.{IsGetRequest, inf_body-Asks}
use echonet_list.Handler.Notifications.Returns.{inf_body-Returns}

-- The answer to an INFC.
abbrev pub confirmation : ℕ → Message → Message
confirmation eoj m =
    response_to (record m { deoj = eoj }) Esv.infc_res (without_values m.properties) []

-- The node before the notification is looked at: the sender is alive.
abbrev pub alive : Text → Message → ℕ → Node → Node
alive ip m now n = record n {
  session = signal_device_alive (record { ip = ip; eoj = m.seoj }) now n.session;
}

-- The packets that end the handling of a notification: the INFC_Res to an INFC, if the connection takes
-- it.
abbrev pub ending : Environment → Text → ℕ → Message → List Packet
ending env ip eoj m =
    if m.esv == Esv.infc && env.works (unicast ip (confirmation eoj m))
    then unicast ip (confirmation eoj m) ∷ []
    else []

confirm-ending :
    (env : Environment) (ip : Text) (eoj : ℕ) (m : Message) (n : Node)
    → confirm env ip (record m { deoj = eoj }) n ≡ record n { sent = n.sent ++ ending env ip eoj m }
unfolding confirm send_response send_message response_to
confirm-ending env ip eoj m n = elim (Bool-cases (m.esv == Esv.infc)) [
  | inr other ↦ rw other (ap (λ l. record n { sent = l }) (sym (append-nil n.sent)))
  | inl infc ↦ elim (Bool-cases (env.works (unicast ip (confirmation eoj m)))) [
    | inl takes ↦ rw (infc, takes) refl
    | inr fails ↦ rw (infc, fails) (ap (λ l. record n { sent = l }) (sym (append-nil n.sent)))
  ]
]

pub confirm-sent :
    (env : Environment) (ip : Text) (eoj : ℕ) (m : Message) (n : Node)
    → (confirm env ip (record m { deoj = eoj }) n).sent ≡ n.sent ++ ending env ip eoj m
confirm-sent env ip eoj m n = ap (λ k. k.sent) (confirm-ending env ip eoj m n)

-- The handling of a notification from another node to an object of this one always ends, with the error
-- of its processing. It sends Get requests only, and then, if and only if the service is INFC and the
-- connection takes it, one INFC_Res that names every code of the notification without data.
pub on_inf_message-infc :
    (env : Environment) (ip : Text) (m : Message) (now : ℕ) (n : Node) (eoj : ℕ) (others : List ℕ)
    → env.is_local ip ≡ false
    → find_eoj m.deoj n.local_devices ≡ eoj ∷ others
    → (e : Option CallbackError) × (n' : Node) × (asked : List Packet) × (inf_body env ip
          (record m { deoj = eoj })
          now
          (alive ip m now n)
        ≡ ok (e, n'))
      × (n'.sent ≡ n.sent ++ asked)
      × All IsGetRequest asked
      × (on_inf_message env ip m now n
          ≡ ok (e, record n' { sent = n'.sent ++ ending env ip eoj m }))
unfolding on_inf_message inf_for
on_inf_message-infc env ip m now n eoj others remote known =
    let ((e, n'), body) =
      inf_body-Returns env ip (record m { deoj = eoj }) now (alive ip m now n) in
    let (asked, more, gets) =
      inf_body-Asks env ip (record m { deoj = eoj }) now (alive ip m now n) n' e body in
    (
      e,
      n',
      asked,
      body,
      more,
      gets,
      rw (on_inf_message, remote, known)
          (rw (inf_for, body) (ap (λ k. ok (e, k)) (confirm-ending env ip eoj m n'))),
    )
