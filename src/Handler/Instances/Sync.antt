-- ===== src/Handler/Instances/Sync.antt =====
-- Which devices are known, and which are offline, after an instance list.
use echonet_list.Base.{
  ℕ, ◌≡◌, refl, sym, ap, ◌∙◌, arith, Bool, true, false, not, ◌&&◌, List, [], ◌∷◌, ◌++◌, All,
  All-append, append-nil, or_else, if◌then◌else◌, Bool-cases, inl, inr,
}
use echonet_list.Base.Keys.{Text, ◌=?◌, nat_eq, text_eq, text_beq_iff}
use echonet_list.Base.Maps.{contains, Distinct, keys, lookup}
use echonet_list.EchonetLite.Object.{node_profile_object}
use echonet_list.Handler.Identifiers.{Device, device_key}
use echonet_list.Handler.LocalObjects.{DeviceProperties}
use echonet_list.Handler.Devices.{
  Devices, allows, allows_ip, no_filter, objects_at, is_known_device, is_offline, at_ip, select,
  matches, keep_nonempty, filter_data, filter,
}
use echonet_list.Handler.Devices.Known.{same_device, same_device_lem, is_known_device-keys}
use echonet_list.Handler.Instances.{
  device_keys, devices_to_remove, remove_each, register_each, with_node_profile, sync_instance_list,
  by_ip, list_each, list_ip_and_eoj, parse_ip,
}
use echonet_list.Handler.Instances.Members.{
  listed, IsEoj, AreEojs, key_is, remove_each-known, remove_each-offline, register_each-known,
  register_each-offline,
}

pub listed-at_ip :
    (ip : Text) (eojs : List ℕ) (other : Device)
    → listed other (at_ip ip eojs) ≡ (ip =? other.ip && contains eojs other.eoj)
unfolding at_ip
listed-at_ip ip [] other = ground arith
listed-at_ip ip (eoj ∷ eojs) other = ground (arith, listed-at_ip ip eojs other)

contains-device_keys :
    (devices : List Device) (other : Device)
    → AreEojs devices
    → IsEoj other.eoj
    → contains (device_keys devices) (device_key other) ≡ listed other devices
unfolding device_keys
contains-device_keys [] other h h' = refl
contains-device_keys (device ∷ devices) other (hd, h) h' =
    ground (arith, contains-device_keys devices other h h', key_is device other hd h')

at_ip-AreEojs : (ip : Text) (eojs : List ℕ) → All IsEoj eojs → AreEojs (at_ip ip eojs)
unfolding at_ip
at_ip-AreEojs ip [] h = tt
at_ip-AreEojs ip (eoj ∷ eojs) (hd, h) = (hd, at_ip-AreEojs ip eojs h)

listed-devices_to_remove :
    (ip : Text) (new_set : List Text) (devices : List Device) (other : Device)
    → listed other (devices_to_remove ip new_set devices)
      ≡ (listed other devices && (other.ip =? ip && not (contains new_set (device_key other))))
unfolding devices_to_remove
listed-devices_to_remove ip new_set [] other = refl
listed-devices_to_remove ip new_set (device ∷ devices) other =
    elim (Bool-cases (same_device device other)) [
      | inr apart ↦ ground (arith, listed-devices_to_remove ip new_set devices other)
      | inl same ↦
          let (i, e) = same_device_lem device other same in
          let one : device ≡ other = cc in
          let test : (device.ip =? ip && not (contains new_set (device_key device)))
              ≡ (other.ip =? ip && not (contains new_set (device_key other))) =
            ap (λ x. x.ip =? ip && not (contains new_set (device_key x))) one in
          ground (arith, test, listed-devices_to_remove ip new_set devices other)
    ]

devices_to_remove-AreEojs :
    (ip : Text) (new_set : List Text) (devices : List Device)
    → AreEojs devices
    → AreEojs (devices_to_remove ip new_set devices)
unfolding devices_to_remove
devices_to_remove-AreEojs ip new_set [] h = tt
devices_to_remove-AreEojs ip new_set (device ∷ devices) (hd, h) =
    elim (Bool-cases (device.ip =? ip && not (contains new_set (device_key device)))) [
      | inl gone ↦ rw (devices_to_remove, gone) (hd, devices_to_remove-AreEojs ip new_set devices h)
      | inr kept ↦ rw (devices_to_remove, kept) (devices_to_remove-AreEojs ip new_set devices h)
    ]

-- Without further criteria `Filter` selects all objects of the address.
select-all :
    (parses : Text → Bool) (ip : Text) (d : Devices) (objects : DeviceProperties)
    → select (matches parses (by_ip ip) d ip) objects ≡ objects
unfolding select matches by_ip allows no_filter
select-all parses ip d [] = refl
select-all parses ip d ((eoj, props) ∷ objects) =
    ap (◌∷◌ (eoj, props)) (select-all parses ip d objects)

none_of_ip :
    (parses : Text → Bool) (ip : Text) (d : Devices) (table : List (Text × DeviceProperties))
    → contains (keys table) ip ≡ false
    → list_each parses (filter_data parses (by_ip ip) d table) ≡ []
unfolding filter_data keys list_each by_ip allows_ip
none_of_ip parses ip d [] h = refl
none_of_ip parses ip d ((i, objects) ∷ table) h =
    let other : (i =? ip) ≡ false = ground arith in
    rw (filter_data, by_ip, allows_ip, other) (none_of_ip parses ip d table (ground arith))

list_each-keep_nonempty :
    (parses : Text → Bool) (ip : Text) (objects : DeviceProperties)
    (table : List (Text × DeviceProperties))
    → list_each parses (keep_nonempty ip objects table)
      ≡ at_ip (parse_ip parses ip) (keys objects) ++ list_each parses table
unfolding list_each keep_nonempty keys at_ip
list_each-keep_nonempty parses ip [] table = refl
list_each-keep_nonempty parses ip (o ∷ objects) table = refl

filtered_objects :
    (parses : Text → Bool) (ip : Text) (d : Devices) (table : List (Text × DeviceProperties))
    → Distinct (keys table)
    → parses ip ≡ true
    → list_each parses (filter_data parses (by_ip ip) d table)
      ≡ at_ip ip (keys (or_else (lookup ip table) []))
unfolding filter_data keys list_each by_ip allows_ip lookup at_ip
filtered_objects parses ip d [] h reads = refl
filtered_objects parses ip d ((i, objects) ∷ table) (hi, h) reads = elim (Bool-cases (i =? ip)) [
  | inr other ↦
      rw (filter_data, by_ip, allows_ip, other) (filtered_objects parses ip d table h reads)
  | inl this ↦
      let same : i ≡ ip = (text_beq_iff _ _).0 this in
      let rest : List (Text × DeviceProperties) = filter_data parses (by_ip ip) d table in
      let gone : list_each parses rest ≡ [] = none_of_ip parses ip d table (rw same at hi) in
      let reads_ip : parse_ip parses ip ≡ ip = unfold parse_ip in rw reads refl in
      rw this (
        rw same (
          rw (select-all parses ip d objects) (
            list_each-keep_nonempty parses ip objects rest
            ∙ rw (gone, reads_ip) (append-nil (at_ip ip (keys objects))))))
]

existing_lem :
    (parses : Text → Bool) (ip : Text) (d : Devices)
    → Distinct (keys d.data_by_ip)
    → parses ip ≡ true
    → list_ip_and_eoj parses (filter parses (by_ip ip) d) ≡ at_ip ip (keys (objects_at ip d))
unfolding list_ip_and_eoj filter objects_at
existing_lem parses ip d h reads = filtered_objects parses ip d d.data_by_ip h reads

-- A store whose tables have no key twice and whose codes at this address have three bytes.
pub record IsSound (ip : Text) (d : Devices) : Type 0 where
  pub addresses : Distinct (keys d.data_by_ip)
  pub codes : All IsEoj (keys (objects_at ip d))

module _ (parses : Text → Bool) (ip : Text) (il : List ℕ) (d : Devices) (other : Device)
    (sound : IsSound ip d) (reads : parses ip ≡ true) (codes : All IsEoj il)
    (code : IsEoj other.eoj) where
  full_list : List ℕ
  full_list = with_node_profile il

  full_list-IsEoj : All IsEoj full_list
  unfolding full_list with_node_profile
  full_list-IsEoj = All-append IsEoj il (node_profile_object ∷ []) codes (omega arith, tt)

  stale : List Device
  stale =
      devices_to_remove ip (device_keys (at_ip ip full_list)) (at_ip ip (keys (objects_at ip d)))

  stale-AreEojs : AreEojs stale
  unfolding stale
  stale-AreEojs =
      devices_to_remove-AreEojs ip _ _ (at_ip-AreEojs ip (keys (objects_at ip d)) sound.codes)

  synced : sync_instance_list parses ip il d ≡ register_each ip full_list (remove_each stale d)
  unfolding sync_instance_list stale full_list
  synced = rw (existing_lem parses ip d sound.addresses reads) refl

  -- The stale devices are those of the address that are known and not full_list.
  listed-stale :
      listed other stale
      ≡ (ip =? other.ip && (is_known_device other d && not (contains full_list other.eoj)))
  unfolding stale
  listed-stale =
      let existing : List Device = at_ip ip (keys (objects_at ip d)) in
      let new_set : List Text = device_keys (at_ip ip full_list) in
      let in_set : contains new_set (device_key other)
          ≡ (ip =? other.ip && contains full_list other.eoj) =
        contains-device_keys (at_ip ip full_list) other (at_ip-AreEojs ip full_list full_list-IsEoj)
          code
        ∙ listed-at_ip ip full_list other in
      let present : listed other existing
          ≡ (ip =? other.ip && contains (keys (objects_at ip d)) other.eoj) =
        listed-at_ip ip (keys (objects_at ip d)) other in
      let chosen : listed other stale ≡ (
          listed other existing && (other.ip =? ip && not (contains new_set (device_key other)))) =
        listed-devices_to_remove ip new_set existing other in
      elim (Bool-cases (ip =? other.ip)) [
        | inr apart ↦ ground arith
        | inl here ↦
            let same : ip ≡ other.ip = (text_beq_iff ip other.ip).0 here in
            let back : (other.ip =? ip) ≡ true = (text_beq_iff other.ip ip).1 (sym same) in
            let known : is_known_device other d ≡ contains (keys (objects_at ip d)) other.eoj =
              is_known_device-keys other d
              ∙ ap (λ i. contains (keys (objects_at i d)) other.eoj) (sym same) in
            ground arith
      ]

  -- After `onInstanceList` the devices known at the address are exactly those of the list and the node
  -- profile; those of other addresses are as before.
  pub is_known_device-sync_instance_list :
      is_known_device other (sync_instance_list parses ip il d) ≡ (
        if ip =? other.ip
        then contains (with_node_profile il) other.eoj
        else is_known_device other d)
  unfolding full_list
  is_known_device-sync_instance_list =
      ap (is_known_device other) synced
      ∙ ground (
        arith,
        register_each-known ip full_list other (remove_each stale d),
        remove_each-known stale other d,
        listed-at_ip ip full_list other,
        listed-stale,
      )

  -- After `onInstanceList` a device of the address is offline only if it was, and it is neither in the
  -- list nor was it known; those of other addresses are as before.
  pub is_offline-sync_instance_list : is_offline other (sync_instance_list parses ip il d) ≡ (
      if ip =? other.ip
      then not (contains (with_node_profile il) other.eoj)
        && (not (is_known_device other d) && is_offline other d)
      else is_offline other d)
  unfolding full_list
  is_offline-sync_instance_list =
      ap (is_offline other) synced
      ∙ ground (
        arith,
        register_each-offline ip full_list other (remove_each stale d) full_list-IsEoj code,
        remove_each-offline stale other d stale-AreEojs code,
        listed-at_ip ip full_list other,
        listed-stale,
      )
