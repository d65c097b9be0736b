-- ===== src/Handler/Notifications/Values.antt =====
-- What a notification of values leaves in the store.
use echonet_list.Base.{
  ℕ, ◌≡◌, refl, ap, ◌∙◌, arith, Bool, true, false, List, ◌∷◌, ◌++◌, none, ok, ◌==◌, Bool-cases, inl,
  inr,
}
use echonet_list.Base.Keys.{Text, nat_eq, text_eq}
use echonet_list.Base.Maps.{=?_refl}
use echonet_list.EchonetLite.Esv
use echonet_list.EchonetLite.Object.{class_code, node_profile_class_code, node_profile_object}
use echonet_list.EchonetLite.Property.{Property}
use echonet_list.EchonetLite.Message.{Message}
use echonet_list.Handler.Identifiers.{Device}
use echonet_list.Handler.LocalObjects.{find_eoj}
use echonet_list.Handler.LocalObjects.Writes.{last_write}
use echonet_list.Handler.Devices.{
  Devices, objects_at, has_ip, is_known_device, is_offline, set_offline, get_property,
  register_properties,
}
use echonet_list.Handler.Devices.Properties.{
  always, send-data_by_ip, get_property-register_properties,
}
use echonet_list.Handler.Devices.Offline.{is_offline-set_offline_self}
use echonet_list.Handler.Node.{Node, send_message, send_response}
use echonet_list.Handler.Registration.{
  detect_and_register_property_changes, process_property_update_hooks, register_with_hooks,
}
use echonet_list.Handler.Notifications.{
  Environment, inf_values, inf_known, inf_of_other, confirm, inf_body, inf_for, on_inf_message,
}
use echonet_list.Handler.Notifications.Confirmation.{alive, ending, confirm-sent}

not_node_profile :
    (eoj : ℕ)
    → (class_code eoj == node_profile_class_code) ≡ false
    → (eoj == node_profile_object) ≡ false
not_node_profile eoj h = elim (Bool-cases (eoj == node_profile_object)) [
  | inr other ↦ other
  | inl same ↦
      let one : eoj ≡ node_profile_object = ground arith in
      let classes : (class_code eoj == node_profile_class_code) ≡ true =
        rw one (unfold class_code in refl) in
      cc
]

-- Only a node profile has hooks.
register_with_hooks-plain :
    (edt_string : ℕ → Property → Text) (parses : Text → Bool) (device : Device) (ps : List Property)
    (now : ℕ) (n : Node)
    → (device.eoj == node_profile_object) ≡ false
    → register_with_hooks edt_string parses device ps now n
      ≡ ok (detect_and_register_property_changes edt_string device ps now n)
unfolding register_with_hooks process_property_update_hooks detect_and_register_property_changes
register_with_hooks-plain edt_string parses device ps now n other =
    rw (register_with_hooks, process_property_update_hooks, other) refl

get_property-set_offline :
    (device other : Device) (offline : Bool) (epc : ℕ) (d : Devices)
    → get_property other epc (set_offline device offline d) ≡ get_property other epc d
unfolding get_property objects_at set_offline
get_property-set_offline device other true epc d = elim (Bool-cases (is_offline device d)) [
  | inl off ↦ rw off refl
  | inr on ↦ rw (on, send-data_by_ip) refl
]
get_property-set_offline device other false epc d = elim (Bool-cases (is_offline device d)) [
  | inl off ↦ rw (off, send-data_by_ip) refl
  | inr on ↦ rw on refl
]

confirm-devices :
    (env : Environment) (ip : Text) (m : Message) (n : Node)
    → (confirm env ip m n).devices ≡ n.devices
unfolding confirm send_response send_message
confirm-devices env ip m n = elim (Bool-cases (m.esv == Esv.infc)) [
  | inl asks ↦ rw asks refl
  | inr other ↦ rw other refl
]

known-has_ip :
    (device : Device) (d : Devices) → is_known_device device d ≡ true → has_ip device.ip d ≡ true
unfolding is_known_device
known-has_ip device d h = ground arith

-- The device after a notification of `p ∷ ps`.
abbrev pub noted : Environment → Device → List Property → ℕ → Node → Devices
noted env device ps now n = set_offline device false (register_properties device ps now n.devices)

inf_values-noted :
    (env : Environment) (device : Device) (p : Property) (ps : List Property) (now : ℕ) (n : Node)
    → (device.eoj == node_profile_object) ≡ false
    → (n' : Node) × (inf_values env device (p ∷ ps) now n ≡ ok (none, n'))
      × (n'.devices ≡ noted env device (p ∷ ps) now n)
      × (n'.sent ≡ n.sent)
unfolding inf_values detect_and_register_property_changes
inf_values-noted env device p ps now n other =
    let n1 : Node = (detect_and_register_property_changes env.edt_string device (p ∷ ps) now n).1 in
    (
      record n1 { devices = set_offline device false n1.devices },
      rw (register_with_hooks-plain env.edt_string env.parses device (p ∷ ps) now n other) refl,
      refl,
      refl,
    )

-- A notification of one value or more that a known device, which is no node profile, sends from
-- another node to an object of this one is stored: of each code its last value in the message, and
-- the device is online afterwards. Nothing is sent, but for the INFC_Res to an INFC, if the
-- connection takes it.
pub on_inf_message-values :
    (env : Environment) (ip : Text) (m : Message) (now : ℕ) (n : Node) (eoj : ℕ) (others : List ℕ)
    (p : Property) (ps : List Property)
    → env.is_local ip ≡ false
    → find_eoj m.deoj n.local_devices ≡ eoj ∷ others
    → (class_code m.seoj == node_profile_class_code) ≡ false
    → is_known_device (record { ip = ip; eoj = m.seoj }) n.devices ≡ true
    → m.properties ≡ p ∷ ps
    → (n' : Node) × (on_inf_message env ip m now n ≡ ok (none, n'))
      × (is_offline (record { ip = ip; eoj = m.seoj }) n'.devices ≡ false)
      × (n'.sent ≡ n.sent ++ ending env ip eoj m)
      × ((epc : ℕ)
          → get_property (record { ip = ip; eoj = m.seoj }) epc n'.devices
            ≡ last_write always epc
                (p ∷ ps)
                (get_property (record { ip = ip; eoj = m.seoj }) epc n.devices))
unfolding on_inf_message inf_for inf_body inf_of_other inf_known
on_inf_message-values env ip m now n eoj others p ps remote known plain here values =
    let device : Device = record { ip = ip; eoj = m.seoj } in
    let at_ip : has_ip ip n.devices ≡ true = known-has_ip device n.devices here in
    let start : Node = alive ip m now n in
    let (n1, stored, devices, silent) =
      inf_values-noted env device p ps now start (not_node_profile m.seoj plain) in
    let n' : Node = confirm env ip (record m { deoj = eoj }) n1 in
    let final : n'.devices ≡ noted env device (p ∷ ps) now start =
      confirm-devices env ip (record m { deoj = eoj }) n1 ∙ devices in
    let body : inf_body env ip (record m { deoj = eoj }) now start ≡ ok (none, n1) =
      rw (inf_body, plain, inf_of_other, at_ip, inf_known, here) (rw values stored) in
    (
      n',
      rw (on_inf_message, remote, known) (rw (inf_for, body) refl),
      ap (is_offline device) final
          ∙ is_offline-set_offline_self device false
              (register_properties device (p ∷ ps) now n.devices),
      confirm-sent env ip eoj m n1 ∙ ap (λ l. l ++ ending env ip eoj m) silent,
      λ epc.
          ap (get_property device epc) final
          ∙ get_property-set_offline device device false epc
              (register_properties device (p ∷ ps) now n.devices)
          ∙ get_property-register_properties device device (p ∷ ps) now epc n.devices
          ∙ rw (=?_refl device.ip, =?_refl device.eoj) refl,
    )
