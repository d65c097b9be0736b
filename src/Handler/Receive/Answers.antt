-- ===== src/Handler/Receive/Answers.antt =====
-- What is sent for a request, and what it changes.
use echonet_list.Base.{
  ℕ, ◌≡◌, refl, arith, Bool, true, false, ◌&&◌, ◌||◌, List, [], ◌∷◌, Option, none, ◌==◌,
  if◌then◌else◌, Bool-cases, inl, inr, ◌⊎◌,
}
use echonet_list.Base.Keys.{Text, nat_eq}
use echonet_list.Base.Maps.{contains}
use echonet_list.EchonetLite.Esv
use echonet_list.EchonetLite.Esv.{response_esvs}
use echonet_list.EchonetLite.Message.{Message}
use echonet_list.Handler.LocalObjects.{get_properties, set_properties, find_eoj}
use echonet_list.Handler.Node.{Packet, Node, send_response, broadcast}
use echonet_list.Handler.Receive.{
  ReceiveError, set_local, sent_or_failed, receive_get, receive_set, receive_set_get,
  receive_inf_req, receive_for, on_receive_message,
}
use echonet_list.Handler.Receive.Packets.{
  Sends-none, Sends-then, send_response-Sends, broadcast-Sends, set_local-Sends, Sends, requests,
}

get_allowed :
    (b : Bool) → contains (response_esvs Esv.get) (if b then Esv.get_res else Esv.get_sna) ≡ true
unfolding response_esvs
get_allowed true = refl
get_allowed false = refl

set_allowed :
    (b : Bool)
    → contains (response_esvs Esv.set_c) (if b then Esv.set_res else Esv.set_c_sna) ≡ true
unfolding response_esvs
set_allowed true = refl
set_allowed false = refl

set_get_allowed :
    (b : Bool)
    → contains (response_esvs Esv.set_get) (if b then Esv.set_get_res else Esv.set_get_sna) ≡ true
unfolding response_esvs
set_get_allowed true = refl
set_get_allowed false = refl

receive_get-Sends :
    (works : Packet → Bool) (ip : Text) (m : Message) (n : Node)
    → m.esv ≡ Esv.get
    → Sends ip m.deoj m n (receive_get works ip m.deoj m n).1
unfolding receive_get sent_or_failed
receive_get-Sends works ip m n e =
    let (reps, success) = get_properties m.deoj m.properties n.local_devices in
    send_response-Sends works ip m _ reps [] n (rw e (get_allowed success))

receive_set_get-Sends :
    (works : Packet → Bool) (ip : Text) (m : Message) (n : Node)
    → m.esv ≡ Esv.set_get
    → Sends ip m.deoj m n (receive_set_get works ip m.deoj m n).1
unfolding receive_set_get set_local sent_or_failed
receive_set_get-Sends works ip m n e =
    let (sets, success, d) = set_properties m.deoj m.properties n.local_devices in
    let (gets, found) = get_properties m.deoj m.set_get_properties d in
    Sends-then ip m.deoj m n (set_local works m.deoj m.properties n).2
      (receive_set_get works ip m.deoj m n).1 (set_local-Sends works ip m m.deoj m.properties n)
      (send_response-Sends works ip m
        (if success && found then Esv.set_get_res else Esv.set_get_sna) sets gets
        (set_local works m.deoj m.properties n).2 (rw e (set_get_allowed (success && found))))

receive_inf_req-Sends :
    (works : Packet → Bool) (ip : Text) (m : Message) (n : Node)
    → m.esv ≡ Esv.inf_req
    → Sends ip m.deoj m n (receive_inf_req works ip m.deoj m n).1
unfolding receive_inf_req sent_or_failed response_esvs
receive_inf_req-Sends works ip m n e =
    let (reps, success) = get_properties m.deoj m.properties n.local_devices in
    elim success
      as (λ b.
        Sends ip m.deoj m n
          (if b
            then sent_or_failed (broadcast works m.deoj Esv.inf reps n)
            else sent_or_failed (send_response works ip m Esv.inf_req_sna reps [] n)).1) [
              | true ↦ broadcast-Sends works ip m m.deoj reps n
              | false ↦ send_response-Sends works ip m Esv.inf_req_sna reps [] n (rw e refl)
            ]

receive_set-Sends :
    (works : Packet → Bool) (ip : Text) (m : Message) (n : Node)
    → (m.esv ≡ Esv.set_c) ⊎ (m.esv ≡ Esv.set_i)
    → Sends ip m.deoj m n (receive_set works ip m.deoj m n).1
unfolding receive_set sent_or_failed response_esvs
receive_set-Sends works ip m n c =
    let first : Sends ip m.deoj m n (set_local works m.deoj m.properties n).2 =
      set_local-Sends works ip m m.deoj m.properties n in
    let (reps, success, after) = set_local works m.deoj m.properties n in
    let answer : (esv : ℕ)
        → contains (response_esvs m.esv) esv ≡ true
        → Sends ip m.deoj m n (send_response works ip m esv reps [] after).1 =
      λ esv h.
        Sends-then ip m.deoj m n after (send_response works ip m esv reps [] after).1 first
          (send_response-Sends works ip m esv reps [] after h) in
    elim c [
      | inl set_c ↦
          let is_c : (m.esv == Esv.set_c) ≡ true = ground arith in
          let not_i : (m.esv == Esv.set_i) ≡ false = ground arith in
          rw (is_c, not_i)
            (answer (if success then Esv.set_res else Esv.set_c_sna)
              (rw set_c (set_allowed success)))
      | inr set_i ↦
          let not_c : (m.esv == Esv.set_c) ≡ false = ground arith in
          let is_i : (m.esv == Esv.set_i) ≡ true = ground arith in
          elim (Bool-cases success) [
            | inl done ↦ rw (is_i, done) first
            | inr failed ↦ rw (not_c, is_i, failed) (answer Esv.set_i_sna (rw set_i refl))
          ]
    ]

-- What holds of each handler, under its service, holds of their switch.
receive_for-cases :
    (works : Packet → Bool) (ip : Text) (eoj : ℕ) (m : Message) (n : Node)
    (C : Option ReceiveError × Node → Type 0)
    → (m.esv ≡ Esv.get → C (receive_get works ip eoj m n))
    → ((m.esv ≡ Esv.set_c) ⊎ (m.esv ≡ Esv.set_i) → C (receive_set works ip eoj m n))
    → (m.esv ≡ Esv.set_get → C (receive_set_get works ip eoj m n))
    → (m.esv ≡ Esv.inf_req → C (receive_inf_req works ip eoj m n))
    → (contains requests m.esv ≡ false → C (none, n))
    → C (receive_for works ip eoj m n)
unfolding receive_for
receive_for-cases works ip eoj m n C get set set_get inf_req other =
    elim (Bool-cases (m.esv == Esv.get)) [
      | inl a ↦ rw a (get (ground arith))
      | inr a ↦ elim (Bool-cases (m.esv == Esv.set_c || m.esv == Esv.set_i)) [
        | inl b ↦ rw (a, b) (set (ground arith))
        | inr b ↦ elim (Bool-cases (m.esv == Esv.set_get)) [
          | inl c ↦ rw (a, b, c) (set_get (ground arith))
          | inr c ↦ elim (Bool-cases (m.esv == Esv.inf_req)) [
            | inl d ↦ rw (a, b, c, d) (inf_req (ground arith))
            | inr d ↦ rw (a, b, c, d) (other (ground arith))
          ]
        ]
      ]
    ]

receive_for-Sends :
    (works : Packet → Bool) (ip : Text) (m : Message) (n : Node)
    → Sends ip m.deoj m n (receive_for works ip m.deoj m n).1
receive_for-Sends works ip m n =
    receive_for-cases works ip m.deoj m n (λ r. Sends ip m.deoj m n r.1)
      (receive_get-Sends works ip m n) (receive_set-Sends works ip m n)
      (receive_set_get-Sends works ip m n) (receive_inf_req-Sends works ip m n)
      (λ h. Sends-none ip m.deoj m n)

-- Whatever the request and whichever packets the connection takes, `onReceiveMessage` sends, for the
-- object `eoj` it finds first, only this: to the sender, an answer of a service that the request's
-- own service allows, with the request's transaction and the objects exchanged; to all, an INF of
-- `eoj`. What was sent before stands.
pub on_receive_message-Sends :
    (works : Packet → Bool) (ip : Text) (m : Message) (n : Node) (eoj : ℕ) (others : List ℕ)
    → find_eoj m.deoj n.local_devices ≡ eoj ∷ others
    → Sends ip eoj m n (on_receive_message works ip m n).1
unfolding on_receive_message
on_receive_message-Sends works ip m n eoj others h =
    rw (on_receive_message, h) (receive_for-Sends works ip (record m { deoj = eoj }) n)
