-- ===== src/Handler/LocalObjects.antt =====
-- The objects that this node offers to others: `DeviceProperties` in echonet_lite/handler/Devices.go.
pub mod Laws
pub mod Writes
pub mod Profile
use echonet_list.Base.{
  ℕ, ◌<◌, Bool, true, false, not, ◌&&◌, ◌||◌, List, [], ◌∷◌, Option, none, some, ◌==◌,
  if◌then◌else◌, or_else,
}
use echonet_list.Base.Keys.{nat_eq}
use echonet_list.Base.Maps.{lookup, has, insert, keys}
use echonet_list.EchonetLite.Object.{class_code, instance_code, node_profile_class_code}
use echonet_list.EchonetLite.Property.{Property, edt_bytes}
use echonet_list.EchonetLite.PropertyMap.{has_epc, set_epc, collect, encode_map, decode_map}

-- `EPCPropertyMap`
abbrev pub EpcPropertyMap : Type 0
EpcPropertyMap = List (ℕ × Property)

-- `DeviceProperties`
abbrev pub DeviceProperties : Type 0
DeviceProperties = List (ℕ × EpcPropertyMap)

-- Codes of prop_ProfileSuperClass.go.
abbrev pub epc_get_property_map : ℕ
epc_get_property_map = 0x9f

abbrev pub epc_set_property_map : ℕ
epc_set_property_map = 0x9e

abbrev pub epc_status_announcement_property_map : ℕ
epc_status_announcement_property_map = 0x9d

-- `d[eoj]`, which is an empty map for a missing key.
unfoldable pub properties_of : ℕ → DeviceProperties → EpcPropertyMap
properties_of eoj d = or_else (lookup eoj d) []

unfoldable pub set_all : List Property → EpcPropertyMap → EpcPropertyMap
set_all [] m = m
set_all (p ∷ ps) m = set_all ps (insert p.epc p m)

-- `DeviceProperties.Set`; `none` is the error of instance code 0.
unfoldable pub set : ℕ → List Property → DeviceProperties → Option DeviceProperties
set eoj ps d =
    if instance_code eoj == 0 then none else some (insert eoj (set_all ps (properties_of eoj d)) d)

-- The table `readOnlyEPCs`: 0x80, the three maps, 0x82 to 0x85, and 0x8a to 0x8e.
unfoldable pub read_only : ℕ → Bool
read_only epc =
    epc == 0x80
    || epc == 0x9f
    || epc == 0x9e
    || epc == 0x9d
    || epc == 0x82
    || epc == 0x83
    || epc == 0x84
    || epc == 0x85
    || epc == 0x8a
    || epc == 0x8b
    || epc == 0x8c
    || epc == 0x8d
    || epc == 0x8e

unfoldable pub settable_only : List ℕ → List ℕ
settable_only [] = []
settable_only (epc ∷ epcs) =
    let rest = settable_only epcs in if read_only epc then rest else epc ∷ rest

-- The sets that `Get` builds for the two generated maps.
unfoldable pub get_map : ℕ → DeviceProperties → List ℕ
get_map eoj d = set_epc epc_status_announcement_property_map (
    set_epc epc_set_property_map
      (set_epc epc_get_property_map (collect (keys (properties_of eoj d)) [])))

unfoldable pub set_map : ℕ → DeviceProperties → List ℕ
set_map eoj d = collect (settable_only (keys (properties_of eoj d))) []

-- `DeviceProperties.Get`
unfoldable pub get : ℕ → ℕ → DeviceProperties → Option Property
get eoj epc d =
    if epc == epc_get_property_map
    then some (record { epc = epc; edt = some (encode_map (get_map eoj d)) })
    else if epc == epc_set_property_map
    then some (record { epc = epc; edt = some (encode_map (set_map eoj d)) })
    else lookup epc (properties_of eoj d)

-- One answer of `GetProperties`: the stored value, or an empty EDT and a failure.
unfoldable pub get_one : ℕ → DeviceProperties → Property → Property × Bool
get_one eoj d p = elim (get eoj p.epc d) [
  | none ↦ (record { epc = p.epc; edt = some [] }, false)
  | some q ↦ (record { epc = p.epc; edt = q.edt }, true)
]

-- `DeviceProperties.GetProperties`
unfoldable pub get_properties : ℕ → List Property → DeviceProperties → List Property × Bool
get_properties eoj [] d = ([], true)
get_properties eoj (p ∷ ps) d =
    let (rep, found) = get_one eoj d p in
    let (reps, success) = get_properties eoj ps d in (rep ∷ reps, found && success)

-- The set that `SetProperties` reads back from the generated map; a nil map has no member.
unfoldable pub writable_map : ℕ → DeviceProperties → List ℕ
writable_map eoj d = or_else (decode_map (encode_map (set_map eoj d))) []

-- The loop of `SetProperties` over the set read before it; the error of `Set` is ignored.
unfoldable pub set_loop :
    ℕ → List ℕ → List Property → DeviceProperties → List Property × Bool × DeviceProperties
set_loop eoj writable [] d = ([], true, d)
set_loop eoj writable (p ∷ ps) d =
    let ok = has_epc p.epc writable in
    let written = or_else (set eoj (p ∷ []) d) d in
    let rep : Property = if ok then record p { edt = some [] } else p in
    let (reps, success, d') = set_loop eoj writable ps (if ok then written else d) in
    (rep ∷ reps, ok && success, d')

-- `DeviceProperties.SetProperties`
unfoldable pub set_properties :
    ℕ → List Property → DeviceProperties → List Property × Bool × DeviceProperties
set_properties eoj ps d = set_loop eoj (writable_map eoj d) ps d

-- `DeviceProperties.GetInstanceList`
unfoldable pub get_instance_list : DeviceProperties → List ℕ
get_instance_list [] = []
get_instance_list ((eoj, m) ∷ d) =
    let rest = get_instance_list d in
    if class_code eoj == node_profile_class_code then rest else eoj ∷ rest

unfoldable pub of_class : ℕ → List ℕ → List ℕ
of_class c [] = []
of_class c (eoj ∷ eojs) =
    let rest = of_class c eojs in if class_code eoj == c then eoj ∷ rest else rest

-- `DeviceProperties.FindEOJ`: instance code 0 asks for every instance of the class.
unfoldable pub find_eoj : ℕ → DeviceProperties → List ℕ
find_eoj deoj d =
    if has deoj d
    then deoj ∷ []
    else if instance_code deoj == 0
    then of_class (class_code deoj) (keys d)
    else []

-- `DeviceProperties.IsAnnouncementTarget`
unfoldable pub is_announcement_target : ℕ → ℕ → DeviceProperties → Bool
is_announcement_target eoj epc d = elim (get eoj epc_status_announcement_property_map d) [
  | none ↦ false
  | some p ↦ has_epc epc (or_else (decode_map (edt_bytes p.edt)) [])
]
