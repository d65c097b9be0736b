-- ===== src/Tests/Data.antt =====
-- Aliases and identifiers of devices at one concrete store.
use echonet_list.Base.{◌≡◌, refl, arith, Bool, true, false, [], ◌∷◌, none, some, ok}
use echonet_list.Base.Keys.{Text, nat_eq, text_eq}
use echonet_list.Base.Maps.{lookup, has, keys, insert}
use echonet_list.EchonetLite.Object.{class_code, instance_code}
use echonet_list.Handler.Identifiers.{device_key, Device, hex_digit, hex4}
use echonet_list.Handler.Aliases.{DeviceAliases, register, validate_device_alias, is_hex_digit}
use echonet_list.Handler.Devices.{
  Devices, FilterCriteria, filter, filter_data, allows_ip, keep_nonempty, select, matches, allows,
  no_filter, at_ip, is_known_device, has_ip, objects_at, get_property,
}
use echonet_list.Handler.Instances.{list_ip_and_eoj, list_each, parse_ip, len}
use echonet_list.Handler.Data.{
  get_id_string, high_digits, alias_set, alias_get, wrapped, hex_bytes, id_string, make_id_string,
  decode_identification_number,
}
use echonet_list.Handler.Helpers.{parse_hex_string, is_space, parse_device_identifier}
use echonet_list.Handler.Helpers.RoundTrip.{
  parse_hex_string-hex_bytes, parse_device_identifier-device_key,
}
use echonet_list.Handler.Data.Aliasing.{alias_get-alias_set}

abbrev ip_2 : Text
ip_2 = 50 ∷ []

abbrev cooler : Device
cooler = record { ip = ip_2; eoj = 0x013001 }

abbrev parses : Text → Bool
parses ip = true

-- The store, with a full identification number.
abbrev identified : Devices
identified = record {
  timestamps = [];
  offline_devices = [];
  room = none;
  sent = [];
  data_by_ip =
      (
        ip_2,
        (0x013001, [])
            ∷ (
              0x0ef001,
              (
                0x83,
                record {
                  epc = 0x83;
                  edt = some (
                      0xfe ∷ 0 ∷ 0 ∷ 8 ∷ 1 ∷ 2 ∷ 3 ∷ 4 ∷ 5 ∷ 6 ∷ 7 ∷ 8 ∷ 9 ∷ 10 ∷ 11 ∷ 12 ∷ 13
                      ∷ []);
                },
              )
                  ∷ [],
            )
            ∷ [],
      )
      ∷ [];
}

-- The objects of class 0x0130.
abbrev coolers : FilterCriteria
coolers = record {
  ip = none;
  class_filter = some 0x0130;
  instance_filter = none;
  property_values = [];
  exclude_offline = false;
}

abbrev alias : Text
alias = b'a' ∷ b'i' ∷ b'r' ∷ []

abbrev aliases : DeviceAliases
aliases = (alias, get_id_string cooler identified) ∷ []

alias_get-alias_set_example :
    (device : Device) × (alias_get parses (some alias) identified aliases ≡ ok device)
    × (get_id_string device identified ≡ get_id_string cooler identified)
unfolding list_ip_and_eoj list_each filter filter_data allows_ip keep_nonempty select matches allows
    class_code instance_code no_filter at_ip keys parse_ip is_known_device has_ip has lookup
    objects_at alias_set len get_id_string get_property decode_identification_number make_id_string
    id_string high_digits hex_bytes hex_digit hex4 wrapped register validate_device_alias
    is_hex_digit insert
alias_get-alias_set_example =
    alias_get-alias_set parses alias coolers identified [] aliases cooler [] refl refl refl refl

parse_device_identifier-device_key_example :
    parse_device_identifier parses (device_key cooler) ≡ ok cooler
unfolding instance_code is_space
parse_device_identifier-device_key_example =
    parse_device_identifier-device_key parses cooler refl (λ nil. cc nil) (refl, tt) (omega arith)
      (omega arith)

parse_hex_string-hex_bytes_example :
    parse_hex_string (hex_bytes (0x30 ∷ 0xff ∷ [])) ≡ ok (0x30 ∷ 0xff ∷ [])
parse_hex_string-hex_bytes_example =
    parse_hex_string-hex_bytes (0x30 ∷ 0xff ∷ []) (omega arith, (omega arith, tt))
