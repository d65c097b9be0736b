-- ===== src/Handler/Devices/Offline.antt =====
-- Online, offline, and the events of the change.
use echonet_list.Base.{
  ◌^◌, ◌<◌, ◌≡◌, refl, ◌∙◌, arith, Bool, true, false, not, if◌then◌else◌, Bool-cases, inl, inr,
}
use echonet_list.Base.Keys.{◌=?◌, nat_eq, text_eq, text_beq_iff}
use echonet_list.Base.Maps.{has, has-insert, has-delete, =?_refl}
use echonet_list.Handler.Identifiers.{Device, device_key}
use echonet_list.Handler.Identifiers.Keys.{device_key_injective}
use echonet_list.Handler.Devices.{
  Devices, DeviceEvent, went_offline, went_online, send, is_offline, set_offline,
}
use echonet_list.Handler.Devices.Properties.{send-offline_devices}

abbrev pub same : Bool → Bool → Bool
same true b = b
same false b = not b

-- `SetOffline` of one device, seen by the key of another.
pub is_offline-set_offline :
    (device other : Device) (offline : Bool) (d : Devices)
    → is_offline other (set_offline device offline d)
      ≡ (if device_key device =? device_key other then offline else is_offline other d)
unfolding set_offline is_offline
is_offline-set_offline device other true d =
    elim (Bool-cases (has (device_key device) d.offline_devices)) [
      | inl already ↦
          rw already (ground (arith, text_beq_iff (device_key device) (device_key other)))
      | inr new ↦ rw new (
          rw send-offline_devices
            (has-insert (device_key device) (device_key other) tt d.offline_devices ∙ ground arith))
    ]
is_offline-set_offline device other false d =
    elim (Bool-cases (has (device_key device) d.offline_devices)) [
      | inl already ↦ rw already (
          rw send-offline_devices
            (has-delete (device_key device) (device_key other) d.offline_devices ∙ ground arith))
      | inr new ↦ rw new (ground (arith, text_beq_iff (device_key device) (device_key other)))
    ]

-- `SetOffline` gives the device the wanted state.
pub is_offline-set_offline_self :
    (device : Device) (offline : Bool) (d : Devices)
    → is_offline device (set_offline device offline d) ≡ offline
is_offline-set_offline_self device offline d =
    is_offline-set_offline device device offline d ∙ rw (=?_refl (device_key device)) refl

-- If the object codes of two different devices have 24 bits, `SetOffline` of the one leaves the
-- state of the other.
is_offline-set_offline_other :
    (device other : Device) (offline : Bool) (d : Devices)
    → device.eoj < 2 ^ 24
    → other.eoj < 2 ^ 24
    → ¬ ((device.ip ≡ other.ip) × (device.eoj ≡ other.eoj))
    → is_offline other (set_offline device offline d) ≡ is_offline other d
is_offline-set_offline_other device other offline d h h' apart =
    is_offline-set_offline device other offline d
    ∙ elim (Bool-cases (device_key device =? device_key other)) [
      | inl e ↦ absurd (apart (device_key_injective device other h h' ((text_beq_iff _ _).0 e)))
      | inr e ↦ rw e refl
    ]

-- The event of a change.
abbrev pub change : Device → Bool → DeviceEvent
change device offline = record {
  device = device;
  event_type = if offline then went_offline else went_online;
}

-- `SetOffline` hands the event of the change to the channel exactly when the state changes, and
-- nothing otherwise.
set_offline-sent :
    (device : Device) (offline : Bool) (d : Devices)
    → (set_offline device offline d).sent ≡ (
        if same (is_offline device d) offline
        then d.sent
        else (send (change device offline) d).sent)
unfolding set_offline
set_offline-sent device true d = elim (Bool-cases (is_offline device d)) [
  | inl e ↦ rw e refl
  | inr e ↦ rw e (unfold send in ground arith)
]
set_offline-sent device false d = elim (Bool-cases (is_offline device d)) [
  | inl e ↦ rw e (unfold send in ground arith)
  | inr e ↦ rw e refl
]

-- Setting the same state twice is setting it once: no second event, no other change.
set_offline_idem :
    (device : Device) (offline : Bool) (d : Devices)
    → set_offline device offline (set_offline device offline d) ≡ set_offline device offline d
unfolding set_offline
set_offline_idem device true d =
    still (set_offline device true d) (is_offline-set_offline_self device true d)
  where
    still : (d' : Devices) → is_offline device d' ≡ true → set_offline device true d' ≡ d'
    still d' e = rw (e, set_offline) refl
set_offline_idem device false d =
    still (set_offline device false d) (is_offline-set_offline_self device false d)
  where
    still : (d' : Devices) → is_offline device d' ≡ false → set_offline device false d' ≡ d'
    still d' e = rw (e, set_offline) refl
