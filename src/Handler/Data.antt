-- ===== src/Handler/Data.antt =====
-- Devices by their identification numbers and aliases: `AliasSet`, `AliasGet`, `AliasDelete` and
-- `ValidateEPCsInPropertyMap` in echonet_lite/handler/handler_data_management.go, with `GetIDString`,
-- `FindByIDString` and `GetPropertyMap` of Devices.go. Saving the file of aliases is left out.
pub mod Aliasing
use echonet_list.Base.{
  ℕ, ◌/◌, ◌%◌, Bool, true, false, not, List, [], ◌∷◌, ◌++◌, Option, none, some, Result, ok, err,
  panic, ◌>>=◌, length, take, drop, ◌==◌, ltb, if◌then◌else◌,
}
use echonet_list.Base.Keys.{Text, ◌=?◌, nat_eq, text_eq}
use echonet_list.EchonetLite.Object.{class_code, instance_code, node_profile_object}
use echonet_list.EchonetLite.Property.{edt_bytes}
use echonet_list.EchonetLite.PropertyMap.{has_epc, decode_map}
use echonet_list.Handler.Identifiers.{Device, hex_digit, hex4}
use echonet_list.Handler.Aliases.{
  DeviceAliases, AliasError, register, find_by_alias, delete_by_alias,
}
use echonet_list.Handler.Devices.{Devices, FilterCriteria, filter, get_property, is_known_device}
use echonet_list.Handler.Instances.{list_ip_and_eoj, len, epc_id_number}

-- `%X` of a byte string.
unfoldable pub hex_bytes : List ℕ → Text
hex_bytes [] = []
hex_bytes (b ∷ bs) = hex_digit (b / 16 % 16) ∷ hex_digit (b % 16) ∷ hex_bytes bs

-- `IdentificationNumber`
pub record IdentificationNumber : Type 0 where
  pub manufacturer_code : List ℕ
  pub unique_identifier : List ℕ

-- `DecodeIdentificationNumber`
unfoldable pub decode_identification_number : List ℕ → Option IdentificationNumber
decode_identification_number [] = none
decode_identification_number (b ∷ bs) =
    if not (length (b ∷ bs) == 17)
    then none
    else if not (b == 0xfe)
    then none
    else some (record { manufacturer_code = take 3 bs; unique_identifier = drop 3 bs })

-- The digits above the sixth that `%06X` prints of a uint32.
unfoldable pub high_digits : ℕ → Text
high_digits b =
    if b == 0
    then []
    else if ltb b 16
    then hex_digit b ∷ []
    else hex_digit (b / 16 % 16) ∷ hex_digit (b % 16) ∷ []

-- `EOJ.IDString`, which is `%06X` of the code.
unfoldable pub id_string : ℕ → Text
id_string eoj =
    high_digits (eoj / 16777216 % 256)
    ++ (hex4 (class_code eoj)
        ++ (hex_digit (instance_code eoj / 16 % 16) ∷ hex_digit (instance_code eoj % 16) ∷ []))

-- `MakeIDString`
unfoldable pub make_id_string : ℕ → IdentificationNumber → Text
make_id_string eoj id =
    id_string eoj
    ++ (b':' ∷ (hex_bytes id.manufacturer_code ++ (b':' ∷ hex_bytes id.unique_identifier)))

-- `GetIDString`; the empty text stands for none.
unfoldable pub get_id_string : Device → Devices → Text
get_id_string device d =
    elim (get_property (record { ip = device.ip; eoj = node_profile_object }) epc_id_number d) [
      | none ↦ []
      | some p ↦ elim (decode_identification_number (edt_bytes p.edt)) [
        | none ↦ []
        | some id ↦ make_id_string device.eoj id
      ]
    ]

unfoldable pub with_id : Text → Devices → List Device → List Device
with_id id d [] = []
with_id id d (device ∷ devices) =
    let rest = with_id id d devices in if get_id_string device d =? id then device ∷ rest else rest

-- `FindByIDString`
unfoldable pub find_by_id_string : (Text → Bool) → Text → Devices → List Device
find_by_id_string parses [] d = []
find_by_id_string parses (c ∷ id) d = with_id (c ∷ id) d (list_ip_and_eoj parses d)

pub data DataError : Type 0 where
  no_alias no_device too_many_devices no_id alias_unknown device_unknown : DataError
  refused : AliasError → DataError

-- An error of the aliases, wrapped.
unfoldable pub wrapped : {A : Type 0} → Result AliasError A → Result DataError A
wrapped (ok a) = ok a
wrapped (err e) = err (refused e)
wrapped panic = panic

-- `AliasSet`
unfoldable pub alias_set :
    (Text → Bool) → Text → FilterCriteria → Devices → DeviceAliases → Result DataError DeviceAliases
alias_set parses alias c d a =
    let devices = filter parses c d in
    if len devices == 0
    then err no_device
    else if ltb 1 (len devices)
    then err too_many_devices
    else elim (list_ip_and_eoj parses devices) [
      | [] ↦ panic
      | found ∷ _ ↦
          if length (get_id_string found d) == 0
          then err no_id
          else wrapped (register alias (get_id_string found d) a)
    ]

-- `AliasDelete`
unfoldable pub alias_delete : Option Text → DeviceAliases → Result DataError DeviceAliases
alias_delete none a = err no_alias
alias_delete (some alias) a = wrapped (delete_by_alias alias a)

-- `AliasGet`
unfoldable pub alias_get :
    (Text → Bool) → Option Text → Devices → DeviceAliases → Result DataError Device
alias_get parses none d a = err no_alias
alias_get parses (some alias) d a = elim (find_by_alias alias a) [
  | none ↦ err alias_unknown
  | some id ↦ elim (find_by_id_string parses id d) [
    | [] ↦ err device_unknown
    | device ∷ _ ↦ ok device
  ]
]

-- `GetPropertyMap` of the map with the given code; nil is none.
unfoldable pub get_property_map : Device → ℕ → Devices → Option (List ℕ)
get_property_map device map_epc d = elim (get_property device map_epc d) [
  | none ↦ none
  | some p ↦ decode_map (edt_bytes p.edt)
]

-- `HasEPCInPropertyMap`
unfoldable pub has_epc_in_property_map : Device → ℕ → ℕ → Devices → Bool
has_epc_in_property_map device map_epc epc d = elim (get_property_map device map_epc d) [
  | none ↦ false
  | some m ↦ has_epc epc m
]

unfoldable pub invalid_epcs : Device → ℕ → Devices → List ℕ → List ℕ
invalid_epcs device map_epc d [] = []
invalid_epcs device map_epc d (epc ∷ epcs) =
    let rest = invalid_epcs device map_epc d epcs in
    if has_epc_in_property_map device map_epc epc d then rest else epc ∷ rest

-- `ValidateEPCsInPropertyMap`: whether all are valid, and the codes that are not.
unfoldable pub validate_epcs_in_property_map :
    Device → List ℕ → ℕ → Devices → Result DataError (Bool × List ℕ)
validate_epcs_in_property_map device epcs map_epc d =
    let invalid = invalid_epcs device map_epc d epcs in
    if is_known_device device d then ok (length invalid == 0, invalid) else err device_unknown
