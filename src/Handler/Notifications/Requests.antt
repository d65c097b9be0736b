-- ===== src/Handler/Notifications/Requests.antt =====
-- What is sent while a notification is looked at: Get requests only.
use echonet_list.Base.{
  ℕ, ◌≡◌, refl, sym, ap, ◌∙◌, Bool, true, List, [], ◌∷◌, ◌++◌, Option, none, some, Result, ok, err,
  panic, ◌>>=◌, ◌==◌, Bool-cases, inl, inr, All, All-append, append-nil, append_assoc,
}
use echonet_list.Base.Keys.{Text, nat_eq}
use echonet_list.EchonetLite.Esv
use echonet_list.EchonetLite.Object.{class_code, node_profile_class_code}
use echonet_list.EchonetLite.Property.{Property, edt_bytes}
use echonet_list.EchonetLite.NodeProfile.{decode_instance_list}
use echonet_list.EchonetLite.Message.{Message}
use echonet_list.Handler.Identifiers.{Device}
use echonet_list.Handler.LocalObjects.{epc_get_property_map}
use echonet_list.Handler.Devices.{has_ip, is_known_device}
use echonet_list.Handler.Session.{create_get_property_message}
use echonet_list.Handler.Node.{
  Packet, unicast, multicast, Node, CallbackError, send_message, prepare_start_get_properties,
  start_get_properties, start_get_properties_with_retry, self_node_instances,
  epc_self_node_instance_list_s,
}
use echonet_list.Handler.Instances.{
  on_instance_list, get_get_property_map, get_each_map, with_node_profile, sync_instance_list,
}
use echonet_list.Handler.Registration.{
  process_property_update_hooks, detect_and_register_property_changes, register_with_hooks,
}
use echonet_list.Handler.Notifications.{
  Environment, InfResult, epc_instance_list_notification, get_self_node_instance_list_s,
  inf_of_instance_list, inf_of_node_profile_one, inf_of_node_profile, inf_values, inf_known,
  inf_of_other, inf_body,
}

abbrev pub IsGetRequest : Packet → Type 0
IsGetRequest (unicast ip m) = m.esv ≡ Esv.get
IsGetRequest (multicast m) = ⊥

-- The packets of `n'` are those of `n` and Get requests.
abbrev pub Asks : Node → Node → Type 0
Asks n n' = (new : List Packet) × (n'.sent ≡ n.sent ++ new) × All IsGetRequest new

Asks-none : (n : Node) → Asks n n
Asks-none n = ([], sym (append-nil n.sent), tt)

Asks-then : (a b c : Node) → Asks a b → Asks b c → Asks a c
Asks-then a b c (xs, e, hx) (ys, e', hy) = (
  xs ++ ys,
  e' ∙ ap (λ l. l ++ ys) e ∙ append_assoc a.sent xs ys,
  All-append IsGetRequest xs ys hx hy,
)

start-Asks :
    (works : Packet → Bool) (device : Device) (epcs : List ℕ) (callback : ℕ) (n : Node)
    → Asks n (start_get_properties works device epcs callback n).1
unfolding start_get_properties send_message prepare_start_get_properties create_get_property_message
start-Asks works device epcs callback n =
    let p : Packet =
      unicast device.ip (prepare_start_get_properties device epcs callback n.session).0 in
    elim (Bool-cases (works p)) [
      | inl takes ↦ (p ∷ [], rw takes refl, (refl, tt))
      | inr fails ↦ ([], rw fails (sym (append-nil n.sent)), tt)
    ]

start_retry-Asks :
    (works : Packet → Bool) (device : Device) (epcs : List ℕ) (callback : ℕ) (n : Node)
    → Asks n (start_get_properties_with_retry works device epcs callback n).1
unfolding start_get_properties_with_retry send_message prepare_start_get_properties
    create_get_property_message
start_retry-Asks works device epcs callback n =
    let p : Packet =
      unicast device.ip (prepare_start_get_properties device epcs callback n.session).0 in
    elim (Bool-cases (works p)) [
      | inl takes ↦ (p ∷ [], rw takes refl, (refl, tt))
      | inr fails ↦ ([], rw fails (sym (append-nil n.sent)), tt)
    ]

get_each_map-Asks :
    (works : Packet → Bool) (callback : ℕ) (ip : Text) (eojs : List ℕ) (n : Node)
    → Asks n (get_each_map works callback ip eojs n)
unfolding get_each_map get_get_property_map
get_each_map-Asks works callback ip [] n = Asks-none n
get_each_map-Asks works callback ip (eoj ∷ eojs) n =
    let device : Device = record { ip = ip; eoj = eoj } in
    let asked : Node = (get_get_property_map works callback device n).1 in
    Asks-then n asked (get_each_map works callback ip eojs asked)
      (start_retry-Asks works device (epc_get_property_map ∷ []) callback n)
      (get_each_map-Asks works callback ip eojs asked)

on_instance_list-Asks :
    (works : Packet → Bool) (parses : Text → Bool) (callback : ℕ) (ip : Text) (il : List ℕ)
    (n : Node)
    → Asks n (on_instance_list works parses callback ip il n)
unfolding on_instance_list
on_instance_list-Asks works parses callback ip il n =
    get_each_map-Asks works callback ip (with_node_profile il)
      (record n { devices = sync_instance_list parses ip il n.devices })

-- A handler that returns a node has sent Get requests only.
abbrev Asking : {E A : Type 0} → Node → Result E (A × Node) → Type 0
Asking n (ok r) = Asks n r.1
Asking n (err e) = Unit {0}
Asking n panic = Unit {0}

Asking-bind :
    {E A B : Type 0} (n : Node) (r : Result E A) (next : A → Result E (B × Node))
    → ((x : A) → Asking n (next x))
    → Asking n (r >>= next)
Asking-bind n (ok x) next h = h x
Asking-bind n (err e) next h = tt
Asking-bind n panic next h = tt

Asking-then :
    {E A B : Type 0} (n : Node) (r : Result E (A × Node)) (next : A × Node → Result E (B × Node))
    → Asking n r
    → ((x : A × Node) → Asks n x.1 → Asking n (next x))
    → Asking n (r >>= next)
Asking-then n (ok x) next asks h = h x asks
Asking-then n (err e) next asks h = tt
Asking-then n panic next asks h = tt

Asking-weaken :
    {E A : Type 0} (a b : Node) (r : Result E (A × Node)) → Asks a b → Asking b r → Asking a r
Asking-weaken a b (ok x) first rest = Asks-then a b x.1 first rest
Asking-weaken a b (err e) first rest = tt
Asking-weaken a b panic first rest = tt

inf_of_instance_list-Asking :
    (env : Environment) (ip : Text) (p : Property) (n : Node)
    → Asking n (inf_of_instance_list env ip p n)
unfolding inf_of_instance_list
inf_of_instance_list-Asking env ip p n =
    Asking-bind n (decode_instance_list (edt_bytes p.edt)) _ (λ list.
      elim list
        as (λ o.
          Asking n (elim o as (λ x. Result CallbackError (Option (Option CallbackError) × Node)) [
            | none ↦ ok (some none, n)
            | some il ↦
                ok (some none, on_instance_list env.works env.parses env.map_callback ip il n)
          ])) [
            | none ↦ Asks-none n
            | some il ↦ on_instance_list-Asks env.works env.parses env.map_callback ip il n
          ])

inf_of_node_profile_one-Asking :
    (env : Environment) (ip : Text) (p : Property) (n : Node)
    → Asking n (inf_of_node_profile_one env ip p n)
unfolding inf_of_node_profile_one
inf_of_node_profile_one-Asking env ip p n =
    elim (Bool-cases (p.epc == epc_self_node_instance_list_s)) [
      | inl list ↦
          rw list
            (elim (self_node_instances true p)
              as (λ r.
                Asking n
                  (elim r as (λ x. Result CallbackError (Option (Option CallbackError) × Node)) [
                    | ok il ↦
                        ok (none, on_instance_list env.works env.parses env.map_callback ip il n)
                    | err e ↦ ok (some (some e), n)
                    | panic ↦ panic
                  ])) [
                    | ok il ↦ on_instance_list-Asks env.works env.parses env.map_callback ip il n
                    | err e ↦ Asks-none n
                    | panic ↦ tt
                  ])
      | inr other ↦ elim (Bool-cases (p.epc == epc_instance_list_notification)) [
        | inl list ↦ rw (other, list) (inf_of_instance_list-Asking env ip p n)
        | inr plain ↦ rw (other, plain) (Asks-none n)
      ]
    ]

inf_of_node_profile-Asking :
    (env : Environment) (ip : Text) (ps : List Property) (n : Node)
    → Asking n (inf_of_node_profile env ip ps n)
unfolding inf_of_node_profile
inf_of_node_profile-Asking env ip [] n = Asks-none n
inf_of_node_profile-Asking env ip (p ∷ ps) n =
    Asking-then n (inf_of_node_profile_one env ip p n) _ (inf_of_node_profile_one-Asking env ip p n)
      (λ r asks.
        elim r.0
          as (λ o. Asking n (elim o as (λ x. InfResult) [
            | none ↦ inf_of_node_profile env ip ps r.1
            | some e ↦ ok (e, r.1)
          ])) [
            | none ↦
                Asking-weaken n r.1 (inf_of_node_profile env ip ps r.1) asks
                  (inf_of_node_profile-Asking env ip ps r.1)
            | some e ↦ asks
          ])

inf_values-Asking :
    (env : Environment) (device : Device) (ps : List Property) (now : ℕ) (n : Node)
    → Asking n (inf_values env device ps now n)
unfolding inf_values register_with_hooks detect_and_register_property_changes
inf_values-Asking env device [] now n = Asks-none n
inf_values-Asking env device (p ∷ ps) now n =
    Asking-then n (register_with_hooks env.edt_string env.parses device (p ∷ ps) now n) _
      (Asking-bind n
        (process_property_update_hooks env.parses device (p ∷ ps)
          (detect_and_register_property_changes env.edt_string device (p ∷ ps) now n).1.devices)
        _ (λ r. Asks-none n))
      (λ r asks. asks)

inf_known-Asking :
    (env : Environment) (device : Device) (ps : List Property) (now : ℕ) (n : Node)
    → Asking n (inf_known env device ps now n)
unfolding inf_known get_get_property_map
inf_known-Asking env device ps now n =
    let (sent, n') = get_get_property_map env.works env.map_callback device n in
    let asks : Asks n n' =
      start_retry-Asks env.works device (epc_get_property_map ∷ []) env.map_callback n in
    elim (Bool-cases (is_known_device device n.devices)) [
      | inl known ↦ rw known (inf_values-Asking env device ps now n)
      | inr new ↦ elim (Bool-cases sent) [
        | inl takes ↦
            rw (new, takes)
              (Asking-weaken n n' (inf_values env device ps now n') asks
                (inf_values-Asking env device ps now n'))
        | inr fails ↦ rw (new, fails) asks
      ]
    ]

inf_of_other-Asking :
    (env : Environment) (ip : Text) (m : Message) (now : ℕ) (n : Node)
    → Asking n (inf_of_other env ip m now n)
unfolding inf_of_other get_self_node_instance_list_s
inf_of_other-Asking env ip m now n =
    let device : Device = record { ip = ip; eoj = m.seoj } in
    let (sent, n') = get_self_node_instance_list_s env ip n in
    let asks : Asks n n' = start-Asks env.works _ _ env.list_callback n in
    elim (Bool-cases (has_ip ip n.devices)) [
      | inl known ↦ rw known (inf_known-Asking env device m.properties now n)
      | inr new ↦ elim (Bool-cases sent) [
        | inl takes ↦
            rw (new, takes)
              (Asking-weaken n n' (inf_known env device m.properties now n') asks
                (inf_known-Asking env device m.properties now n'))
        | inr fails ↦ rw (new, fails) asks
      ]
    ]

inf_body-Asking :
    (env : Environment) (ip : Text) (m : Message) (now : ℕ) (n : Node)
    → Asking n (inf_body env ip m now n)
unfolding inf_body
inf_body-Asking env ip m now n = elim (Bool-cases (class_code m.seoj == node_profile_class_code)) [
  | inl profile ↦ rw profile (inf_of_node_profile-Asking env ip m.properties n)
  | inr other ↦ rw other (inf_of_other-Asking env ip m now n)
]

-- Whatever a notification comes to, looking at it sends nothing but Get requests.
pub inf_body-Asks :
    (env : Environment) (ip : Text) (m : Message) (now : ℕ) (n n' : Node) (e : Option CallbackError)
    → inf_body env ip m now n ≡ ok (e, n')
    → Asks n n'
inf_body-Asks env ip m now n n' e done = rw done at (inf_body-Asking env ip m now n)
