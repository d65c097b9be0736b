-- ===== src/Tests/Nodes.antt =====
-- Requests, notifications and instance lists, at one concrete node.
use echonet_list.Base.{
  ℕ, ◌-◌, ◌<◌, ◌≤◌, ◌≡◌, ◌≢◌, ◌↔◌, refl, arith, Bool, true, false, not, ◌&&◌, List, [], ◌∷◌, ◌++◌,
  Option, none, some, ok, panic, ◌>>=◌, ◌⊎◌, get_elem?, All, length, if◌then◌else◌, Bool-cases, inl,
  inr, ◌^◌,
}
use echonet_list.Base.Keys.{Text, ◌=?◌, nat_eq, text_eq}
use echonet_list.Base.Maps.{contains, lookup, has, insert, keys}
use echonet_list.EchonetLite.Esv
use echonet_list.EchonetLite.Object.{class_code}
use echonet_list.EchonetLite.Property.{Property}
use echonet_list.EchonetLite.Message.{Message, encode_message, parse_message}
use echonet_list.EchonetLite.Message.RoundTrip.{IsSendable}
use echonet_list.Handler.Identifiers.{Device, device_key}
use echonet_list.Handler.LocalObjects.{find_eoj, get, properties_of}
use echonet_list.Handler.LocalObjects.Writes.{last_write}
use echonet_list.Handler.Devices.{
  Devices, objects_at, has_ip, is_known_device, is_offline, get_property, register_properties,
  ensure_device_exists, set_offline, remove_device, send,
}
use echonet_list.Handler.Devices.Properties.{always}
use echonet_list.Handler.Devices.Events.{HasRoom, IsBalanced}
use echonet_list.Handler.Devices.Events.Balance.{new_devices-IsBalanced}
use echonet_list.Handler.Devices.Reachable.{
  new_devices, registers, sets_offline, Reaches, here, next, removes,
}
use echonet_list.Handler.Session.{
  Session, new_tid, callback_of, request_epcs, create_get_property_message, dispatch, epcs_of,
}
use echonet_list.Handler.Core.{DeviceNotification, device_online, Subscribers, fanout_all}
use echonet_list.Handler.Core.Fanout.{served, fanout_all_lem}
use echonet_list.Handler.Node.{
  Packet, unicast, Node, prepare_start_get_properties, callback_arguments, instance_list_callback,
  get_property_map_callback, CallbackError,
}
use echonet_list.Handler.Node.Panics.{
  NoData, instance_list_callback-panic_iff, get_property_map_callback-panic_iff,
}
use echonet_list.Handler.Receive.{on_receive_message}
use echonet_list.Handler.Receive.Packets.{Sends}
use echonet_list.Handler.Receive.Answers.{on_receive_message-Sends}
use echonet_list.Handler.Receive.Values.{value_of, handed_on}
use echonet_list.Handler.Receive.Delivery.{get_properties_delivered}
use echonet_list.Handler.Instances.{
  with_node_profile, sync_instance_list, migrate_devices_from_old_ip,
}
use echonet_list.Handler.Instances.Sync.{
  IsSound, is_known_device-sync_instance_list, is_offline-sync_instance_list,
}
use echonet_list.Handler.Instances.Recovery.{is_old, is_known_device-migrate_devices_from_old_ip}
use echonet_list.Handler.Updates.{Updates, is_update_active, cleanup_stale_active_updates}
use echonet_list.Handler.Updates.Ages.{is_update_active-cleanup_stale_active_updates}
use echonet_list.Handler.Updates.Takeover.{taken_over, is_update_active-taken_over}
use echonet_list.Handler.Operations.{
  OperationInfo, OperationTracker, check_timeouts, delete_each, timed_out_ops, times_out,
}
use echonet_list.Handler.Operations.Timeouts.{check_timeouts-age}
use echonet_list.Handler.Registration.{changed_properties}
use echonet_list.Handler.Registration.Changes.{changed_properties-register_properties}
use echonet_list.Handler.Notifications.{Environment, inf_body, on_inf_message}
use echonet_list.Handler.Notifications.Requests.{IsGetRequest}
use echonet_list.Handler.Notifications.Confirmation.{ending, alive, on_inf_message-infc}
use echonet_list.Handler.Notifications.Values.{on_inf_message-values}

abbrev status : Property
status = record { epc = 0x80; edt = some (0x30 ∷ []) }

abbrev mode : Property
mode = record { epc = 0xb0; edt = some (0x41 ∷ []) }

abbrev session : Session
session = record {
  dispatch_table = [];
  has_inf_callback = true;
  has_receive_callback = true;
  tid = 6;
  eoj = 0x05ff01;
  max_retries = 3;
  failed_epcs = [];
  last_alive_time = [];
}

abbrev ip_1 : Text
ip_1 = 49 ∷ []

abbrev ip_2 : Text
ip_2 = 50 ∷ []

abbrev cooler : Device
cooler = record { ip = ip_2; eoj = 0x013001 }

-- The identification number of a node profile.
abbrev id_number : Property
id_number = record { epc = 0x83; edt = some (0xfe ∷ 1 ∷ []) }

-- A known cooler at the second address, whose node profile is offline.
abbrev store : Devices
store = record {
  data_by_ip =
      (ip_2, (0x013001, (0x80, status) ∷ []) ∷ (0x0ef001, (0x83, id_number) ∷ []) ∷ []) ∷ [];
  timestamps = [];
  offline_devices = (ip_2 ++ (b' ' ∷ b'0' ∷ b'E' ∷ b'F' ∷ b'0' ∷ b':' ∷ b'1' ∷ []), tt) ∷ [];
  room = some 4;
  sent = [];
}

-- A node that offers one controller.
abbrev node : Node
node = record {
  local_devices = (0x05ff01, (0x80, status) ∷ (0xb0, mode) ∷ []) ∷ [];
  session = session;
  devices = store;
  sent = [];
  property_changes = record { room = 2; sent = [] };
}

abbrev works : Packet → Bool
works p = true

abbrev parses : Text → Bool
parses ip = true

abbrev message : ℕ → List Property → Message
message esv ps = record {
  ehd = 0x1081;
  tid = 9;
  seoj = 0x013001;
  deoj = 0x05ff01;
  esv = esv;
  properties = ps;
  set_get_properties = [];
}

found : find_eoj 0x05ff01 node.local_devices ≡ 0x05ff01 ∷ []
unfolding find_eoj has
found = refl

on_receive_message-Sends_example :
    Sends ip_2 0x05ff01
      (message Esv.set_c (mode ∷ []))
      node
      (on_receive_message works ip_2 (message Esv.set_c (mode ∷ [])) node).1
on_receive_message-Sends_example =
    on_receive_message-Sends works ip_2 (message Esv.set_c (mode ∷ [])) node 0x05ff01 [] found

abbrev once : ℕ → Message → Bool
once callback m = true

abbrev controller : Device
controller = record { ip = ip_1; eoj = 0x05ff01 }

request-IsSendable :
    IsSendable (prepare_start_get_properties controller (0x80 ∷ 0xc0 ∷ []) 4 session).0
unfolding prepare_start_get_properties create_get_property_message new_tid request_epcs
request-IsSendable = record {
  ehd_fits = omega arith;
  tid_fits = omega arith;
  seoj_fits = omega arith;
  deoj_fits = omega arith;
  count_fits = omega arith;
  edts_fit = (omega arith, (omega arith, tt));
}

values_fit : All (λ epc. length (value_of 0x05ff01 node.local_devices epc) < 256) (0x80 ∷ 0xc0 ∷ [])
unfolding get lookup properties_of
values_fit = (omega arith, (omega arith, tt))

get_properties_delivered_example :
    (request : Message) × (answer : Message) × (arrived : Message) × ((encode_message
          (prepare_start_get_properties controller (0x80 ∷ 0xc0 ∷ []) 4 session).0
        >>= parse_message)
      ≡ ok request)
    × (on_receive_message works ip_2 request node
        ≡ (none, record node { sent = unicast ip_2 answer ∷ [] }))
    × ((encode_message answer >>= parse_message) ≡ ok arrived)
    × ((dispatch once arrived
          (prepare_start_get_properties controller (0x80 ∷ 0xc0 ∷ []) 4 session).1).0
        ≡ callback_of 4)
    × (callback_arguments arrived ≡ handed_on 0x05ff01 node.local_devices (0x80 ∷ 0xc0 ∷ []))
get_properties_delivered_example =
    get_properties_delivered works once controller ip_2 (0x80 ∷ 0xc0 ∷ []) 4 session node 0x05ff01
      [] request-IsSendable found (omega arith) values_fit (λ r. refl)

instance_list_callback-panic_iff_example :
    (instance_list_callback (message Esv.get_sna []) ≡ panic) ↔ (
      ((Esv.get_sna ≡ Esv.get_res) × (get_elem? (message Esv.get_sna []).properties 0 ≡ none))
      ⊎ ((Esv.get_sna ≢ Esv.get_res) × NoData []))
instance_list_callback-panic_iff_example = instance_list_callback-panic_iff (message Esv.get_sna [])

get_property_map_callback-panic_iff_example :
    (get_property_map_callback true (status ∷ []) ≡ panic)
    ↔ ((◌≡◌ {A = Bool} true true) × (get_elem? (status ∷ []) 0 ≡ none))
get_property_map_callback-panic_iff_example = get_property_map_callback-panic_iff true (status ∷ [])

-- The other node's store: two lists of the second address.
list_of_two : IsSound ip_2 store
unfolding keys lookup objects_at
list_of_two = record { addresses = (refl, tt); codes = (omega arith, (omega arith, tt)) }

is_known_device-sync_instance_list_example :
    is_known_device cooler (sync_instance_list parses ip_2 (0x029101 ∷ []) store) ≡ (
      if ip_2 =? cooler.ip
      then contains (with_node_profile (0x029101 ∷ [])) cooler.eoj
      else is_known_device cooler store)
is_known_device-sync_instance_list_example =
    is_known_device-sync_instance_list parses ip_2 (0x029101 ∷ []) store cooler list_of_two refl
      (omega arith, tt) (omega arith)

is_offline-sync_instance_list_example :
    is_offline cooler (sync_instance_list parses ip_2 (0x029101 ∷ []) store) ≡ (
      if ip_2 =? cooler.ip
      then not (contains (with_node_profile (0x029101 ∷ [])) cooler.eoj)
        && (not (is_known_device cooler store) && is_offline cooler store)
      else is_offline cooler store)
is_offline-sync_instance_list_example =
    is_offline-sync_instance_list parses ip_2 (0x029101 ∷ []) store cooler list_of_two refl
      (omega arith, tt) (omega arith)

store_codes : (ip : Text) → All (λ eoj. eoj < 2 ^ 24) (keys (objects_at ip store))
unfolding keys lookup objects_at
store_codes ip = elim (Bool-cases (ip_2 =? ip)) [
  | inl this ↦ rw this (omega arith, (omega arith, tt))
  | inr other ↦ rw other tt
]

is_known_device-migrate_devices_from_old_ip_example :
    is_known_device cooler (migrate_devices_from_old_ip parses controller (0xfe ∷ 1 ∷ []) store)
    ≡ (not (is_old parses ip_1 (0xfe ∷ 1 ∷ []) cooler.ip store) && is_known_device cooler store)
unfolding keys
is_known_device-migrate_devices_from_old_ip_example =
    is_known_device-migrate_devices_from_old_ip parses controller (0xfe ∷ 1 ∷ []) cooler store
      (refl, tt) store_codes

abbrev environment : Environment
environment = record {
  works = works;
  parses = parses;
  is_local = λ ip. false;
  edt_string = λ class p. [];
  list_callback = 1;
  map_callback = 2;
}

on_inf_message-infc_example :
    (e : Option CallbackError) × (n' : Node) × (asked : List Packet) × (inf_body environment ip_2
        (message Esv.infc (status ∷ []))
        50
        (alive ip_2 (message Esv.infc (status ∷ [])) 50 node)
      ≡ ok (e, n'))
    × (n'.sent ≡ node.sent ++ asked)
    × All IsGetRequest asked
    × (on_inf_message environment ip_2 (message Esv.infc (status ∷ [])) 50 node
        ≡ ok (
          e,
          record n' {
            sent = n'.sent ++ ending environment ip_2 0x05ff01 (message Esv.infc (status ∷ []));
          },
        ))
on_inf_message-infc_example =
    on_inf_message-infc environment ip_2 (message Esv.infc (status ∷ [])) 50 node 0x05ff01 [] refl
      found

cooler_known : is_known_device cooler store ≡ true
unfolding is_known_device objects_at lookup has has_ip
cooler_known = refl

on_inf_message-values_example :
    (n' : Node) × (on_inf_message environment ip_2 (message Esv.inf (mode ∷ [])) 50 node
      ≡ ok (none, n'))
    × (is_offline cooler n'.devices ≡ false)
    × (n'.sent ≡ node.sent ++ ending environment ip_2 0x05ff01 (message Esv.inf (mode ∷ [])))
    × ((epc : ℕ)
        → get_property cooler epc n'.devices
          ≡ last_write always epc (mode ∷ []) (get_property cooler epc store))
unfolding class_code
on_inf_message-values_example =
    on_inf_message-values environment ip_2 (message Esv.inf (mode ∷ [])) 50 node 0x05ff01 [] mode []
      refl found refl cooler_known refl

-- A cooler is registered, marked as offline and removed, with three slots for events.
abbrev one_left : Devices
one_left =
    remove_device cooler
      (set_offline cooler true (ensure_device_exists cooler (new_devices (some 4))))

three_calls : Reaches (new_devices (some 4)) one_left
three_calls =
    next
      (next (next here (registers cooler (new_devices (some 4)) (omega arith)))
        (sets_offline cooler true _))
      (removes cooler _)

room_left : HasRoom one_left
unfolding new_devices remove_device set_offline ensure_device_exists is_known_device has_ip has
    objects_at lookup is_offline send device_key insert
room_left = (0, refl)

new_devices-IsBalanced_example : IsBalanced one_left
new_devices-IsBalanced_example = new_devices-IsBalanced (some 4) one_left three_calls room_left

abbrev updates : Updates
updates = record {
  active_updates = (ip_2, record { start_time = 5; cancel = some 1 }) ∷ [];
  cancelled = [];
}

is_update_active-cleanup_stale_active_updates_example :
    (is_update_active cooler false 20 (cleanup_stale_active_updates 10 updates)).0
    ≡ (is_update_active cooler false 20 updates).0
unfolding keys
is_update_active-cleanup_stale_active_updates_example =
    is_update_active-cleanup_stale_active_updates cooler 10 20 updates (refl, tt) (omega arith)

is_update_active-taken_over_example :
    ((taken_over cooler 1 2 10 20 updates).cancelled ≡ 1 ∷ [])
    × (is_update_active cooler false 30 (taken_over cooler 1 2 10 20 updates)
        ≡ (false, taken_over cooler 1 2 10 20 updates))
is_update_active-taken_over_example = is_update_active-taken_over cooler 1 2 10 20 30 updates

abbrev operation : OperationInfo
operation = record { id = ip_1; op_type = 2; start_time = 5; description = [] }

abbrev tracker : OperationTracker
tracker = record { operations = (ip_1, operation) ∷ []; timeouts = (2, 10) ∷ [] }

check_timeouts-age_example : 12 - operation.start_time ≤ 10
unfolding keys lookup check_timeouts delete_each timed_out_ops times_out
check_timeouts-age_example = check_timeouts-age 12 10 tracker ip_1 operation (refl, tt) refl refl

abbrev came_online : DeviceNotification
came_online = record { device = cooler; notification_type = device_online }

abbrev subscribers : Subscribers
subscribers = record {
  notification_subscribers = record { id = 3; channel = record { room = 1; sent = [] } } ∷ [];
  closed = [];
}

fanout_all_lem_example :
    (fanout_all (came_online ∷ []) subscribers).notification_subscribers
    ≡ served (came_online ∷ []) subscribers.notification_subscribers
fanout_all_lem_example = fanout_all_lem (came_online ∷ []) subscribers

changed_properties-register_properties_example :
    changed_properties
      (λ class p. [])
      cooler
      (register_properties cooler (mode ∷ status ∷ []) 7 store)
      (mode ∷ status ∷ [])
    ≡ []
unfolding epcs_of
changed_properties-register_properties_example =
    changed_properties-register_properties (λ class p. []) cooler (mode ∷ status ∷ []) 7 store
      (refl, (refl, tt))
