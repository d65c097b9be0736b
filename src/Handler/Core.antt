-- ===== src/Handler/Core.antt =====
-- The channels of notifications: echonet_lite/handler/handler_core.go. A channel is the room that is left in
-- its buffer and what went in; a subscriber's channel has a number.
pub mod Fanout
use echonet_list.Base.{
  ℕ, zero, suc, Bool, true, false, List, [], ◌∷◌, ◌++◌, Option, none, some, if◌then◌else◌,
}
use echonet_list.EchonetLite.Property.{Property}
use echonet_list.Handler.Identifiers.{Device}
use echonet_list.Handler.Devices.{EventType, added, removed, went_offline, went_online, DeviceEvent}

-- `NotificationType`
pub data NotificationType : Type 0 where
  device_added device_removed device_timeout device_offline device_online : NotificationType

-- `DeviceNotification` without the text of its error.
pub record DeviceNotification : Type 0 where
  pub device : Device
  pub notification_type : NotificationType

-- `PropertyChangeNotification`
pub record PropertyChange : Type 0 where
  pub device : Device
  pub property : Property

pub record Channel (A : Type 0) : Type 0 where
  pub room : ℕ
  pub sent : List A

-- `select { case ch <- a: default: }`
unfoldable pub offer : {A : Type 0} → A → Channel A → Channel A
offer a c = elim c.room [ zero ↦ c | suc n ↦ record { room = n; sent = c.sent ++ (a ∷ []) } ]

unfoldable pub notification_of : EventType → NotificationType
notification_of added = device_added
notification_of removed = device_removed
notification_of went_offline = device_offline
notification_of went_online = device_online

-- `RelayDeviceEvent`
unfoldable pub relay_device_event :
    DeviceEvent → Channel DeviceNotification → Channel DeviceNotification
relay_device_event e c =
    offer (record { device = e.device; notification_type = notification_of e.event_type }) c

-- `RelaySessionTimeoutEvent`; there may be no offline checker.
unfoldable pub relay_session_timeout_event :
    Option (Device → Bool) → Device → Channel DeviceNotification → Channel DeviceNotification
relay_session_timeout_event checker device c =
    let known_offline : Bool = elim checker [
      | none ↦ false
      | some is_offline ↦ is_offline device
    ] in
    if known_offline
    then c
    else offer (record { device = device; notification_type = device_timeout }) c

-- `RelayPropertyChangeEvent`
unfoldable pub relay_property_change_event :
    Device → Property → Channel PropertyChange → Channel PropertyChange
relay_property_change_event device p c = offer (record { device = device; property = p }) c

pub record Subscriber : Type 0 where
  pub id : ℕ
  pub channel : Channel DeviceNotification

pub record Subscribers : Type 0 where
  pub notification_subscribers : List Subscriber
  pub closed : List ℕ

-- `SubscribeNotifications`, with the number of the new channel.
unfoldable pub subscribe_notifications : ℕ → ℕ → Subscribers → Subscribers
subscribe_notifications id buffer_size s = record s {
  notification_subscribers =
      s.notification_subscribers
      ++ (record { id = id; channel = record { room = buffer_size; sent = [] } } ∷ []);
}

-- The subscribers that had room, with the notification, and the numbers of those that are closed.
unfoldable pub deliver : DeviceNotification → List Subscriber → List Subscriber × List ℕ
deliver n [] = ([], [])
deliver n (s ∷ subscribers) =
    let (active, stale) = deliver n subscribers in
    elim s.channel.room [
      | zero ↦ (active, s.id ∷ stale)
      | suc m ↦ (record s { channel = offer n s.channel } ∷ active, stale)
    ]

-- One round of `fanoutNotifications`.
unfoldable pub fanout : DeviceNotification → Subscribers → Subscribers
fanout n s =
    let (active, stale) = deliver n s.notification_subscribers in
    record { notification_subscribers = active; closed = s.closed ++ stale }

unfoldable pub fanout_all : List DeviceNotification → Subscribers → Subscribers
fanout_all [] s = s
fanout_all (n ∷ ns) s = fanout_all ns (fanout n s)
