-- ===== src/Handler/Devices/Events/Balance.antt =====
-- That the events of the store tell which devices it knows.
use echonet_list.Base.{
  ℕ, ◌+◌, ◌≡◌, refl, sym, ap, ◌∙◌, arith, Bool, true, false, not, ◌&&◌, ◌||◌, List, [], ◌∷◌, Option,
  ◌==◌, Bool-cases, inl, inr,
}
use echonet_list.Base.Keys.{Text, ◌=?◌, nat_eq, text_eq, text_beq_iff}
use echonet_list.Base.Maps.{contains, keys, Distinct, has, insert, delete}
use echonet_list.EchonetLite.Property.{Property}
use echonet_list.Handler.Identifiers.{Device, device_key}
use echonet_list.Handler.Devices.{
  added, removed, went_offline, went_online, DeviceEvent, Devices, send, objects_at, has_ip,
  is_known_device, is_offline, set_offline, set_offline_each, set_offline_by_ip,
  ensure_device_exists, register_properties, put_back, remove_device, forget_each,
  remove_all_devices_by_ip,
}
use echonet_list.Handler.Devices.Known.{
  same_device, is_known_device-ensure_device_exists, is_known_device-register_properties,
  is_known_device-remove_device, is_known_device-set_offline, is_known_device-keys,
  known-remove_all,
}
use echonet_list.Handler.Devices.Tables.{IsTable}
use echonet_list.Handler.Devices.Reachable.{
  Step, registers, registers_properties, sets_offline, sets_offline_by_ip, removes, removes_all,
  Reaches, here, next, new_devices, new_devices-IsTable,
}
use echonet_list.Handler.Devices.Events.{
  is_added, is_removed, times, times-append, bit, HasRoom, IsBalanced, send-HasRoom, same_unknown,
  same_known, Keeps, quiet, loud,
}

ensure-Keeps : (device : Device) (d : Devices) → Keeps d (ensure_device_exists device d)
unfolding objects_at ensure_device_exists
ensure-Keeps device d = elim (Bool-cases (has device.eoj (objects_at device.ip d))) [
  | inl there ↦ rw (ensure_device_exists, there) (λ balanced. balanced)
  | inr new ↦
      let e : DeviceEvent = record { device = device; event_type = added } in
      let d1 : Devices = record d {
        data_by_ip = insert device.ip (insert device.eoj [] (objects_at device.ip d)) d.data_by_ip;
      } in
      let result : ensure_device_exists device d ≡ send e d1 =
        rw (ensure_device_exists, new) refl in
      rw result (
        loud e d d1 refl refl (λ other.
          let known : is_known_device other (send e d1)
              ≡ (same_device device other || is_known_device other d) =
            ap (is_known_device other) (sym result)
            ∙ is_known_device-ensure_device_exists device other d in
          let unknown = same_unknown device other d new in
          rw known (elim (Bool-cases (same_device device other)) [
            | inl same ↦ rw (same, unknown same) refl
            | inr apart ↦ rw apart refl
          ])))
]

register-Keeps :
    (device : Device) (ps : List Property) (now : ℕ) (d : Devices)
    → Keeps d (register_properties device ps now d)
unfolding register_properties
register-Keeps device ps now d balanced =
    quiet (ensure_device_exists device d) (register_properties device ps now d) refl refl
      (λ other. is_known_device-register_properties device other ps now d)
      (ensure-Keeps device d balanced)

set_offline-Keeps :
    (device : Device) (offline : Bool) (d : Devices) → Keeps d (set_offline device offline d)
unfolding set_offline
set_offline-Keeps device true d = elim (Bool-cases (is_offline device d)) [
  | inl off ↦ rw (set_offline, off) (λ balanced. balanced)
  | inr on ↦
      let e : DeviceEvent = record { device = device; event_type = went_offline } in
      let d1 : Devices = record d {
        offline_devices = insert (device_key device) tt d.offline_devices;
      } in
      let result : set_offline device true d ≡ send e d1 = rw (set_offline, on) refl in
      rw result (
        loud e d d1 refl refl (λ other.
          let known : is_known_device other (send e d1) ≡ is_known_device other d =
            ap (is_known_device other) (sym result)
            ∙ is_known_device-set_offline device other true d in
          ap (λ b. 0 + bit b) (sym known)))
]
set_offline-Keeps device false d = elim (Bool-cases (is_offline device d)) [
  | inr on ↦ rw (set_offline, on) (λ balanced. balanced)
  | inl off ↦
      let e : DeviceEvent = record { device = device; event_type = went_online } in
      let d1 : Devices = record d {
        offline_devices = delete (device_key device) d.offline_devices;
      } in
      let result : set_offline device false d ≡ send e d1 = rw (set_offline, off) refl in
      rw result (
        loud e d d1 refl refl (λ other.
          let known : is_known_device other (send e d1) ≡ is_known_device other d =
            ap (is_known_device other) (sym result)
            ∙ is_known_device-set_offline device other false d in
          ap (λ b. 0 + bit b) (sym known)))
]

set_offline_each-Keeps :
    (ip : Text) (eojs : List ℕ) (offline : Bool) (d : Devices)
    → Keeps d (set_offline_each ip eojs offline d)
unfolding set_offline_each
set_offline_each-Keeps ip [] offline d balanced = balanced
set_offline_each-Keeps ip (eoj ∷ eojs) offline d balanced =
    set_offline_each-Keeps ip eojs offline _
      (set_offline-Keeps (record { ip = ip; eoj = eoj }) offline d balanced)

remove-Keeps : (device : Device) (d : Devices) → Keeps d (remove_device device d)
unfolding remove_device
remove-Keeps device d = elim (Bool-cases (is_known_device device d)) [
  | inr unknown ↦
      quiet d (remove_device device d) (rw (remove_device, unknown) refl)
        (rw (remove_device, unknown) refl)
        (λ other.
          is_known_device-remove_device device other d
          ∙ elim (Bool-cases (same_device device other)) [
            | inl same ↦ rw same (sym (same_known device other d same ∙ unknown))
            | inr apart ↦ rw apart refl
          ])
  | inl known ↦
      let e : DeviceEvent = record { device = device; event_type = removed } in
      let d1 : Devices = record d {
        data_by_ip = put_back device.ip (delete device.eoj (objects_at device.ip d)) d.data_by_ip;
        timestamps = delete (device_key device) d.timestamps;
        offline_devices = delete (device_key device) d.offline_devices;
      } in
      let result : remove_device device d ≡ send e d1 = rw (remove_device, known) refl in
      rw result (
        loud e d d1 refl refl (λ other.
          let left : is_known_device other (send e d1)
              ≡ (not (same_device device other) && is_known_device other d) =
            ap (is_known_device other) (sym result)
            ∙ is_known_device-remove_device device other d in
          rw left (elim (Bool-cases (same_device device other)) [
            | inl same ↦ rw (same, same_known device other d same ∙ known) refl
            | inr apart ↦ rw apart refl
          ])))
]

listed_once :
    (ip : Text) (eoj : ℕ) (eojs : List ℕ) (other : Device)
    → contains eojs eoj ≡ false
    → bit (ip =? other.ip && contains (eoj ∷ eojs) other.eoj)
      ≡ bit (same_device (record { ip = ip; eoj = eoj }) other)
        + bit (ip =? other.ip && contains eojs other.eoj)
listed_once ip eoj eojs other new = elim (Bool-cases (ip =? other.ip)) [
  | inr apart ↦ rw apart (omega arith)
  | inl there ↦ elim (Bool-cases (eoj == other.eoj)) [
    | inl same ↦
        let absent : contains eojs other.eoj ≡ false =
          let one : eoj ≡ other.eoj = ground arith in ap (contains eojs) (sym one) ∙ new in
        rw (there, same, absent) (omega arith)
    | inr differs ↦ rw (there, differs) (omega arith)
  ]
]

known_split :
    (ip : Text) (other : Device) (d : Devices)
    → bit (is_known_device other d)
      ≡ bit (ip =? other.ip && contains (keys (objects_at ip d)) other.eoj)
        + bit (not (ip =? other.ip) && is_known_device other d)
known_split ip other d = elim (Bool-cases (ip =? other.ip)) [
  | inr apart ↦ rw apart (omega arith)
  | inl there ↦
      let same : ip ≡ other.ip = (text_beq_iff ip other.ip).0 there in
      let known : is_known_device other d ≡ contains (keys (objects_at ip d)) other.eoj =
        is_known_device-keys other d
        ∙ ap (λ i. contains (keys (objects_at i d)) other.eoj) (sym same) in
      rw (there, known) (omega arith)
]

-- One `removed` event for each object of the list.
forget_each-events :
    (ip : Text) (eojs : List ℕ) (d : Devices)
    → Distinct eojs
    → HasRoom (forget_each ip eojs d)
    → HasRoom d
      × ((other : Device)
          → (times is_added other (forget_each ip eojs d).sent ≡ times is_added other d.sent)
            × (times is_removed other (forget_each ip eojs d).sent
                ≡ times is_removed other d.sent + bit (ip =? other.ip && contains eojs other.eoj)))
unfolding forget_each
forget_each-events ip [] d h left = (
  left,
  λ other. (
    refl,
    elim (Bool-cases (ip =? other.ip)) [
      | inl there ↦ rw there (omega arith)
      | inr apart ↦ rw apart (omega arith)
    ],
  ),
)
forget_each-events ip (eoj ∷ eojs) d (new, h) left =
    let device : Device = record { ip = ip; eoj = eoj } in
    let e : DeviceEvent = record { device = device; event_type = removed } in
    let d1 : Devices = record d {
      timestamps = delete (device_key device) d.timestamps;
      offline_devices = delete (device_key device) d.offline_devices;
    } in
    let (before, rest) = forget_each-events ip eojs (send e d1) h left in
    let (room, more) = send-HasRoom e d1 d1.room refl before in
    (
      room,
      λ other.
          let (adds, removals) = rest other in
          let add = ap (times is_added other) more ∙ times-append is_added other d.sent e in
          let removal = ap (times is_removed other) more ∙ times-append is_removed other d.sent e in
          let split = listed_once ip eoj eojs other new in (omega arith, omega arith),
    )

remove_all-Keeps :
    (ip : Text) (d : Devices) → IsTable d.data_by_ip → Keeps d (remove_all_devices_by_ip ip d).1
unfolding remove_all_devices_by_ip objects_at
remove_all-Keeps ip d table balanced left other =
    let (room, events) = forget_each-events ip (keys (objects_at ip d)) d (table.1 ip).0 left in
    let (adds, removals) = events other in
    let old = balanced room other in
    let known = ap bit (known-remove_all ip other d) in
    let split : bit (is_known_device other d)
        ≡ bit (ip =? other.ip && contains (keys (objects_at ip d)) other.eoj)
          + bit (not (ip =? other.ip) && is_known_device other d) =
      known_split ip other d in
    omega arith

Step-Keeps : {a b : Devices} → Step a b → IsTable a.data_by_ip → Keeps a b
unfolding set_offline_by_ip
Step-Keeps (registers device d h) table = ensure-Keeps device d
Step-Keeps (registers_properties device ps now d h) table = register-Keeps device ps now d
Step-Keeps (sets_offline device offline d) table = set_offline-Keeps device offline d
Step-Keeps (sets_offline_by_ip ip offline d) table =
    set_offline_each-Keeps ip (keys (objects_at ip d)) offline d
Step-Keeps (removes device d) table = remove-Keeps device d
Step-Keeps (removes_all ip d) table = remove_all-Keeps ip d table

empty-IsBalanced : (room : Option ℕ) → IsBalanced (new_devices room)
unfolding new_devices is_known_device has_ip has
empty-IsBalanced room device = refl

Reaches-IsBalanced :
    (room : Option ℕ) {b : Devices} → Reaches (new_devices room) b → HasRoom b → IsBalanced b
Reaches-IsBalanced room here left = empty-IsBalanced room
Reaches-IsBalanced room (next {a} r s) left =
    Step-Keeps s (new_devices-IsTable room a r) (Reaches-IsBalanced room r) left

-- In every store that calls of the operations of `Devices` make from an empty one, if the codes of the
-- devices they register have three bytes, and as long as the channel of events has room left, the
-- events tell which devices are known: a known device was reported as added once more than as
-- removed, and any other device as often.
pub new_devices-IsBalanced :
    (room : Option ℕ) (d : Devices) → Reaches (new_devices room) d → HasRoom d → IsBalanced d
new_devices-IsBalanced room d r left = Reaches-IsBalanced room r left
