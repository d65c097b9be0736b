-- ===== src/Handler/Notifications/Returns.antt =====
-- That the handlers of notifications return for every message.
use echonet_list.Base.{
  ℕ, ◌≡◌, refl, Bool, true, false, List, [], ◌∷◌, Option, none, some, Result, ok, err, panic, ◌>>=◌,
  ◌==◌, if◌then◌else◌, Bool-cases, ◌⊎◌, inl, inr,
}
use echonet_list.Base.Keys.{Text, nat_eq}
use echonet_list.EchonetLite.Object.{class_code, node_profile_class_code, node_profile_object}
use echonet_list.EchonetLite.Property.{Property, edt_bytes}
use echonet_list.EchonetLite.NodeProfile.{decode_instance_list}
use echonet_list.EchonetLite.Message.{Message}
use echonet_list.Handler.Identifiers.{Device}
use echonet_list.Handler.Devices.{Devices, has_ip, is_known_device}
use echonet_list.Handler.Node.{
  Node, CallbackError, send_failed, not_decoded, epc_self_node_instance_list_s, self_node_instances,
}
use echonet_list.Handler.Node.Panics.{decode_instance_list_ok, self_node_instances-ne-panic}
use echonet_list.Handler.Instances.{
  on_instance_list, process_instance_list_for_offline_recovery, migrate_devices_from_old_ip,
  epc_id_number, get_get_property_map,
}
use echonet_list.Handler.Registration.{
  detect_and_register_property_changes, process_instance_list_from_property, hook_each,
  process_property_update_hooks, register_with_hooks,
}
use echonet_list.Handler.Notifications.{
  Environment, InfResult, epc_instance_list_notification, get_self_node_instance_list_s,
  inf_of_instance_list, inf_of_node_profile_one, inf_of_node_profile, inf_values, inf_known,
  inf_of_other, inf_body,
}

-- The code returns, with an error or without.
abbrev pub Returns : {E A : Type 0} → Result E A → Type 0
Returns {E} {A} r = (a : A) × (r ≡ ok a)

bind-Returns :
    {E A B : Type 0} (r : Result E A) (f : A → Result E B)
    → Returns r
    → ((a : A) → Returns (f a))
    → Returns (r >>= f)
bind-Returns r f (a, e) h = let (b, e') = h a in (b, rw e e')

Result-cases :
    {E A : Type 0} (r : Result E A)
    → ((a : A) × (r ≡ ok a)) ⊎ (((e : E) × (r ≡ err e)) ⊎ (r ≡ panic))
Result-cases (ok a) = inl (a, refl)
Result-cases (err e) = inr (inl (e, refl))
Result-cases panic = inr (inr refl)

from_property-Returns :
    (device : Device) (p : Property) (d : Devices)
    → Returns (process_instance_list_from_property device p d)
unfolding process_instance_list_from_property
from_property-Returns device p d =
    bind-Returns (decode_instance_list (edt_bytes p.edt)) _
      (decode_instance_list_ok (edt_bytes p.edt))
      (λ list.
        elim list
          as (λ o. Returns (elim o as (λ x. Result CallbackError (Option CallbackError × Devices)) [
            | none ↦ ok (some not_decoded, d)
            | some il ↦ ok (none, process_instance_list_for_offline_recovery device.ip il d)
          ])) [ none ↦ (_, refl) | some il ↦ (_, refl) ])

hook_each-Returns :
    (parses : Text → Bool) (device : Device) (ps : List Property) (d : Devices)
    → Returns (hook_each parses device ps d)
unfolding hook_each
hook_each-Returns parses device [] d = (_, refl)
hook_each-Returns parses device (p ∷ ps) d =
    elim (Bool-cases (p.epc == epc_self_node_instance_list_s)) [
      | inl list ↦ let (a, e) = from_property-Returns device p d in (a, rw (hook_each, list) e)
      | inr other ↦
          let (a, e) = hook_each-Returns parses device ps (
            if p.epc == epc_id_number
            then migrate_devices_from_old_ip parses device (edt_bytes p.edt) d
            else d) in
          (a, rw (hook_each, other) e)
    ]

register_with_hooks-Returns :
    (edt_string : ℕ → Property → Text) (parses : Text → Bool) (device : Device) (ps : List Property)
    (now : ℕ) (n : Node)
    → Returns (register_with_hooks edt_string parses device ps now n)
unfolding register_with_hooks process_property_update_hooks
register_with_hooks-Returns edt_string parses device ps now n =
    let (changes, n') = detect_and_register_property_changes edt_string device ps now n in
    bind-Returns (process_property_update_hooks parses device ps n'.devices) _
      (elim (Bool-cases (device.eoj == node_profile_object)) [
        | inl profile ↦
            let (a, e) = hook_each-Returns parses device ps n'.devices in
            (a, rw (process_property_update_hooks, profile) e)
        | inr other ↦ ((none, n'.devices), rw (process_property_update_hooks, other) refl)
      ])
      (λ r. (_, refl))

inf_of_instance_list-Returns :
    (env : Environment) (ip : Text) (p : Property) (n : Node)
    → Returns (inf_of_instance_list env ip p n)
unfolding inf_of_instance_list
inf_of_instance_list-Returns env ip p n =
    bind-Returns (decode_instance_list (edt_bytes p.edt)) _
      (decode_instance_list_ok (edt_bytes p.edt))
      (λ list.
        elim list
          as (λ o.
            Returns (elim o as (λ x. Result CallbackError (Option (Option CallbackError) × Node)) [
              | none ↦ ok (some none, n)
              | some il ↦
                  ok (some none, on_instance_list env.works env.parses env.map_callback ip il n)
            ])) [ none ↦ (_, refl) | some il ↦ (_, refl) ])

inf_of_node_profile_one-Returns :
    (env : Environment) (ip : Text) (p : Property) (n : Node)
    → Returns (inf_of_node_profile_one env ip p n)
unfolding inf_of_node_profile_one
inf_of_node_profile_one-Returns env ip p n =
    elim (Bool-cases (p.epc == epc_self_node_instance_list_s)) [
      | inl list ↦ elim (Result-cases (self_node_instances true p)) [
        | inl (il, e) ↦ (
          (none, on_instance_list env.works env.parses env.map_callback ip il n),
          rw (inf_of_node_profile_one, list) (rw e refl),
        )
        | inr (inl (x, e)) ↦ ((some (some x), n), rw (inf_of_node_profile_one, list) (rw e refl))
        | inr (inr e) ↦ absurd (self_node_instances-ne-panic true p e)
      ]
      | inr other ↦ elim (Bool-cases (p.epc == epc_instance_list_notification)) [
        | inl notice ↦
            let (a, e) = inf_of_instance_list-Returns env ip p n in
            (a, rw (inf_of_node_profile_one, other, notice) e)
        | inr rest ↦ ((none, n), rw (inf_of_node_profile_one, other, rest) refl)
      ]
    ]

inf_of_node_profile-Returns :
    (env : Environment) (ip : Text) (ps : List Property) (n : Node)
    → Returns (inf_of_node_profile env ip ps n)
unfolding inf_of_node_profile
inf_of_node_profile-Returns env ip [] n = (_, refl)
inf_of_node_profile-Returns env ip (p ∷ ps) n =
    bind-Returns (inf_of_node_profile_one env ip p n) _ (inf_of_node_profile_one-Returns env ip p n)
      (λ r.
        elim r.0
          as (λ o. Returns (elim o as (λ x. InfResult) [
            | none ↦ inf_of_node_profile env ip ps r.1
            | some e ↦ ok (e, r.1)
          ])) [ none ↦ inf_of_node_profile-Returns env ip ps r.1 | some e ↦ ((e, r.1), refl) ])

inf_values-Returns :
    (env : Environment) (device : Device) (ps : List Property) (now : ℕ) (n : Node)
    → Returns (inf_values env device ps now n)
unfolding inf_values
inf_values-Returns env device [] now n = ((none, n), refl)
inf_values-Returns env device (p ∷ ps) now n =
    bind-Returns (register_with_hooks env.edt_string env.parses device (p ∷ ps) now n) _
      (register_with_hooks-Returns env.edt_string env.parses device (p ∷ ps) now n) (λ r. (_, refl))

inf_known-Returns :
    (env : Environment) (device : Device) (ps : List Property) (now : ℕ) (n : Node)
    → Returns (inf_known env device ps now n)
unfolding inf_known
inf_known-Returns env device ps now n =
    let (sent, n') = get_get_property_map env.works env.map_callback device n in
    elim (is_known_device device n.devices)
      as (λ b. Returns (
        if b
        then inf_values env device ps now n
        else if sent
        then inf_values env device ps now n'
        else ok (some send_failed, n'))) [
          | true ↦ inf_values-Returns env device ps now n
          | false ↦
              elim sent
                as (λ b.
                  Returns
                    (if b then inf_values env device ps now n' else ok (some send_failed, n'))) [
                      | true ↦ inf_values-Returns env device ps now n'
                      | false ↦ ((some send_failed, n'), refl)
                    ]
        ]

inf_of_other-Returns :
    (env : Environment) (ip : Text) (m : Message) (now : ℕ) (n : Node)
    → Returns (inf_of_other env ip m now n)
unfolding inf_of_other
inf_of_other-Returns env ip m now n =
    let device : Device = record { ip = ip; eoj = m.seoj } in
    let (sent, n') = get_self_node_instance_list_s env ip n in
    elim (has_ip ip n.devices)
      as (λ b. Returns (
        if b
        then inf_known env device m.properties now n
        else if sent
        then inf_known env device m.properties now n'
        else ok (some send_failed, n'))) [
          | true ↦ inf_known-Returns env device m.properties now n
          | false ↦
              elim sent
                as (λ b. Returns (
                  if b
                  then inf_known env device m.properties now n'
                  else ok (some send_failed, n'))) [
                    | true ↦ inf_known-Returns env device m.properties now n'
                    | false ↦ ((some send_failed, n'), refl)
                  ]
        ]

-- The handler of notifications always returns.
pub inf_body-Returns :
    (env : Environment) (ip : Text) (m : Message) (now : ℕ) (n : Node)
    → Returns (inf_body env ip m now n)
unfolding inf_body
inf_body-Returns env ip m now n =
    elim (class_code m.seoj == node_profile_class_code)
      as (λ b.
        Returns
          (if b then inf_of_node_profile env ip m.properties n else inf_of_other env ip m now n)) [
            | true ↦ inf_of_node_profile-Returns env ip m.properties n
            | false ↦ inf_of_other-Returns env ip m now n
          ]
