-- ===== src/Handler/Devices/Events.antt =====
-- Counting the events that the store of echonet_lite/handler/Devices.go sends, for each device.
pub mod Balance
use echonet_list.Base.{
  ℕ, zero, suc, ◌+◌, ◌≡◌, refl, sym, ap, ◌∙◌, arith, Bool, true, false, not, ◌&&◌, ◌||◌, List, [],
  ◌∷◌, ◌++◌, Option, none, some, ◌==◌, or_else, if◌then◌else◌, Bool-cases, inl, inr,
}
use echonet_list.Base.Keys.{Text, ◌=?◌, nat_eq, text_eq, text_beq_iff}
use echonet_list.Base.Maps.{
  contains, keys, lookup, lookup-delete, Distinct, =?_refl, has, insert, delete,
}
use echonet_list.EchonetLite.Property.{Property}
use echonet_list.Handler.Identifiers.{Device, device_key}
use echonet_list.Handler.LocalObjects.{DeviceProperties}
use echonet_list.Handler.Devices.{
  EventType, added, removed, went_offline, went_online, DeviceEvent, Devices, send, objects_at,
  has_ip, is_known_device, is_offline, set_offline, set_offline_each, set_offline_by_ip,
  ensure_device_exists, register_properties, put_back, remove_device, forget_each,
  remove_all_devices_by_ip,
}
use echonet_list.Handler.Devices.Known.{
  same_device, same_device_lem, is_known_device-ensure_device_exists,
  is_known_device-register_properties, is_known_device-remove_device, is_known_device-set_offline,
  is_known_device-keys, known-remove_all,
}
use echonet_list.Handler.Devices.Tables.{IsTable}
use echonet_list.Handler.Devices.Reachable.{
  Step, registers, registers_properties, sets_offline, sets_offline_by_ip, removes, removes_all,
  Reaches, here, next, new_devices, new_devices-IsTable, forget_each-data_by_ip,
}

abbrev pub is_added : EventType → Bool
is_added added = true
is_added removed = false
is_added went_offline = false
is_added went_online = false

abbrev pub is_removed : EventType → Bool
is_removed added = false
is_removed removed = true
is_removed went_offline = false
is_removed went_online = false

abbrev pub bit : Bool → ℕ
bit b = if b then 1 else 0

-- How many events of a kind name the device.
abbrev pub times : (EventType → Bool) → Device → List DeviceEvent → ℕ
times kind device [] = 0
times kind device (e ∷ es) =
    bit (kind e.event_type && same_device e.device device) + times kind device es

times-append :
    (kind : EventType → Bool) (device : Device) (es : List DeviceEvent) (e : DeviceEvent)
    → times kind device (es ++ (e ∷ []))
      ≡ times kind device es + bit (kind e.event_type && same_device e.device device)
times-append kind device [] e = omega arith
times-append kind device (x ∷ es) e = omega (arith, times-append kind device es e)

-- The channel has room left, so no event was dropped.
abbrev pub HasRoom : Devices → Type 0
HasRoom d = (k : ℕ) × (d.room ≡ some (suc k))

-- A device was added once more than it was removed exactly when it is known.
abbrev pub IsBalanced : Devices → Type 0
IsBalanced d =
    (device : Device)
    → times is_added device d.sent ≡ times is_removed device d.sent + bit (is_known_device device d)

pub send-HasRoom :
    (e : DeviceEvent) (d : Devices) (o : Option ℕ)
    → d.room ≡ o
    → HasRoom (send e d)
    → HasRoom d × ((send e d).sent ≡ d.sent ++ (e ∷ []))
unfolding send
send-HasRoom e d none h (k, left) = absurd (cc (rw h at left))
send-HasRoom e d (some zero) h (k, left) = absurd (cc (rw h at left))
send-HasRoom e d (some (suc m)) h (k, left) = ((m, h), rw h refl)

-- A device without an object at its address is not known.
pub same_unknown :
    (device other : Device) (d : Devices)
    → has device.eoj (objects_at device.ip d) ≡ false
    → same_device device other ≡ true
    → is_known_device other d ≡ false
unfolding is_known_device
same_unknown device other d new same =
    let (ip, eoj) = same_device_lem device other same in rw (sym ip, sym eoj) (ground (arith, new))

pub same_known :
    (device other : Device) (d : Devices)
    → same_device device other ≡ true
    → is_known_device other d ≡ is_known_device device d
same_known device other d same =
    let (ip, eoj) = same_device_lem device other same in
    let one : other ≡ device = cc in ap (λ x. is_known_device x d) one

-- What an operation keeps.
abbrev pub Keeps : Devices → Devices → Type 0
Keeps d d' = (HasRoom d → IsBalanced d) → HasRoom d' → IsBalanced d'

Keeps-then : (a b c : Devices) → Keeps a b → Keeps b c → Keeps a c
Keeps-then a b c f g h = g (f h)

-- An operation without an event.
pub quiet :
    (d d' : Devices)
    → d'.sent ≡ d.sent
    → d'.room ≡ d.room
    → ((other : Device) → is_known_device other d' ≡ is_known_device other d)
    → Keeps d d'
quiet d d' sent room known balanced (k, left) other =
    let adds : times is_added other d'.sent ≡ times is_added other d.sent =
      ap (times is_added other) sent in
    let removals : times is_removed other d'.sent ≡ times is_removed other d.sent =
      ap (times is_removed other) sent in
    let same : bit (is_known_device other d') ≡ bit (is_known_device other d) =
      ap bit (known other) in
    let old = balanced (k, sym room ∙ left) other in omega arith

-- An operation that sends one event, after which the devices it changes are those it tells.
pub loud :
    (e : DeviceEvent) (d d1 : Devices)
    → d1.sent ≡ d.sent
    → d1.room ≡ d.room
    → ((other : Device)
        → bit (is_added e.event_type && same_device e.device other) + bit (is_known_device other d)
          ≡ bit (is_removed e.event_type && same_device e.device other)
            + bit (is_known_device other (send e d1)))
    → Keeps d (send e d1)
loud e d d1 sent room tells balanced left other =
    let ((k, before), more) = send-HasRoom e d1 d1.room refl left in
    let old = balanced (k, sym room ∙ before) other in
    let change = tells other in
    let all : (send e d1).sent ≡ d.sent ++ (e ∷ []) = more ∙ ap (λ l. l ++ (e ∷ [])) sent in
    let adds = ap (times is_added other) all ∙ times-append is_added other d.sent e in
    let removals = ap (times is_removed other) all ∙ times-append is_removed other d.sent e in
    omega arith
