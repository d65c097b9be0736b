-- ===== src/Handler/LocalObjects/Profile/Announced.antt =====
-- That the node profile announces the objects of this node.
use echonet_list.Base.{
  ℕ, suc, ◌+◌, ◌%◌, ◌^◌, ◌<◌, ◌≤◌, ◌≡◌, refl, ap, ◌∙◌, arith, List, [], ◌∷◌, some, ok, length, All,
  >>=-eq-ok,
}
use echonet_list.Base.Int.{pos, ◌+ℤ◌}
use echonet_list.Base.Keys.{nat_eq}
use echonet_list.Base.Maps.{insert, keys, lookup, lookup-insert, lookup-insert_self}
use echonet_list.EchonetLite.Object.{class_code, instance_code, node_profile_object}
use echonet_list.EchonetLite.Property.{Property}
use echonet_list.EchonetLite.NodeProfile.{decode_instance_list, instance_list_edt, class_list_edt}
use echonet_list.EchonetLite.NodeProfile.Laws.{
  decode_instance_list-instance_list_edt, class_list_edt_ok, joined, bytes2,
}
use echonet_list.EchonetLite.Descriptions.{NumberDesc, from_int, to_int, in_range, get_edt_len}
use echonet_list.EchonetLite.Descriptions.Numbers.{to_int-from_int}
use echonet_list.Handler.LocalObjects.{
  EpcPropertyMap, DeviceProperties, properties_of, set_all, set, get_instance_list,
}
use echonet_list.Handler.LocalObjects.Profile.{
  ProfileError, self_node_instances, self_node_classes, self_node_instance_list_s,
  self_node_class_list_s, instances_desc, classes_desc, property_from_int, add_classes, set_result,
  update_profile_object_properties,
}

length-insert :
    (k : ℕ) (m : List (ℕ × Unit {0})) → length (keys (insert k tt m)) ≤ suc (length (keys m))
unfolding insert keys
length-insert k [] = omega arith
length-insert k ((i, v) ∷ m) = ground (arith, length-insert k m)

length-add_classes :
    (eojs : List ℕ) (classes : List (ℕ × Unit {0}))
    → length (keys (add_classes eojs classes)) ≤ length eojs + length (keys classes)
unfolding add_classes
length-add_classes [] classes = omega arith
length-add_classes (eoj ∷ eojs) classes =
    let more = length-add_classes eojs (insert (class_code eoj) tt classes) in
    let one = length-insert (class_code eoj) classes in omega arith

property_from_int-written :
    (epc : ℕ) (d : NumberDesc) (n : ℕ) (edt : List ℕ)
    → from_int {E = ProfileError} d (pos n) ≡ ok (some edt)
    → property_from_int epc d n ≡ ok (record { epc = epc; edt = some edt })
unfolding property_from_int
property_from_int-written epc d n edt e = rw e refl

-- The count of the objects, read back as it was.
abbrev Counted : NumberDesc → ℕ → ℕ → Type 0
Counted d epc n =
    (edt : List ℕ) × (property_from_int epc d n ≡ ok (record { epc = epc; edt = some edt }))
    × (to_int {E = ProfileError} d edt ≡ ok (some (pos n)))

instances-Counted : (n : ℕ) → n < 65536 → Counted instances_desc self_node_instances n
unfolding get_edt_len in_range ◌+ℤ◌
instances-Counted n small =
    let (edt, size, written, read) =
      to_int-from_int {E = ProfileError} instances_desc (pos n) n (omega arith, omega arith)
        (omega arith, omega arith) (omega arith, omega arith) refl (ground arith) (ground arith)
        (omega arith) (omega arith) (omega arith) (omega arith) in
    (edt, property_from_int-written _ _ _ _ written, read)

classes-Counted : (n : ℕ) → n < 65536 → Counted classes_desc self_node_classes n
unfolding get_edt_len in_range ◌+ℤ◌
classes-Counted n small =
    let (edt, size, written, read) =
      to_int-from_int {E = ProfileError} classes_desc (pos n) n (omega arith, omega arith)
        (omega arith, omega arith) (omega arith, omega arith) refl (ground arith) (ground arith)
        (omega arith) (omega arith) (omega arith) (omega arith) in
    (edt, property_from_int-written _ _ _ _ written, read)

-- The properties of the node profile after `Set` of four.
set-four :
    (a b c e : Property) (d : DeviceProperties)
    → (d' : DeviceProperties) × (set node_profile_object (a ∷ b ∷ c ∷ e ∷ []) d ≡ some d')
      × (properties_of node_profile_object d'
          ≡ set_all (a ∷ b ∷ c ∷ e ∷ []) (properties_of node_profile_object d))
unfolding set instance_code
set-four a b c e d = (
  insert node_profile_object (set_all (a ∷ b ∷ c ∷ e ∷ []) (properties_of node_profile_object d)) d,
  refl,
  unfold properties_of in rw (lookup-insert_self) refl,
)

abbrev four : List ℕ → List ℕ → List ℕ → List ℕ → List Property
four x y z w =
    record { epc = self_node_instances; edt = some x }
    ∷ record { epc = self_node_instance_list_s; edt = some y }
    ∷ record { epc = self_node_classes; edt = some z }
    ∷ record { epc = self_node_class_list_s; edt = some w }
    ∷ []

lookup-four :
    (x y z w : List ℕ) (m : EpcPropertyMap)
    → (lookup self_node_instances (set_all (four x y z w) m)
        ≡ some (record { epc = self_node_instances; edt = some x }))
      × (lookup self_node_instance_list_s (set_all (four x y z w) m)
          ≡ some (record { epc = self_node_instance_list_s; edt = some y }))
unfolding set_all
lookup-four x y z w m = (
  lookup-insert self_node_class_list_s self_node_instances _ _
      ∙ lookup-insert self_node_classes self_node_instances _ _
      ∙ lookup-insert self_node_instance_list_s self_node_instances _ _
      ∙ lookup-insert_self self_node_instances _ m,
  lookup-insert self_node_class_list_s self_node_instance_list_s _ _
      ∙ lookup-insert self_node_classes self_node_instance_list_s _ _
      ∙ lookup-insert_self self_node_instance_list_s _ _,
)

-- The steps of the update, one after the other.
update-steps :
    (d d' : DeviceProperties) (count class_count edt class_bytes : List ℕ)
    → property_from_int self_node_instances instances_desc (length (get_instance_list d))
      ≡ ok (record { epc = self_node_instances; edt = some count })
    → property_from_int self_node_classes classes_desc
        (length (keys (add_classes (get_instance_list d) [])))
      ≡ ok (record { epc = self_node_classes; edt = some class_count })
    → instance_list_edt {E = ProfileError} (get_instance_list d) ≡ ok edt
    → class_list_edt {E = ProfileError} (keys (add_classes (get_instance_list d) []))
      ≡ ok class_bytes
    → set node_profile_object (four count edt class_count class_bytes) d ≡ some d'
    → update_profile_object_properties d ≡ ok d'
unfolding update_profile_object_properties set_result
update-steps d d' count class_count edt class_bytes a b c e done =
    rw (a, b, c, e) (ap set_result done)

-- For at most 255 objects with 24-bit codes `UpdateProfileObjectProperties` succeeds, and then the
-- property 0xd3 of the node profile is read as the number of the objects and the property 0xd6 as
-- the list of the objects.
pub update_profile_object_properties_lem :
    (d : DeviceProperties)
    → length (get_instance_list d) < 256
    → All (λ eoj. eoj < 2 ^ 24) (get_instance_list d)
    → (d' : DeviceProperties) × (count edt : List ℕ) × (update_profile_object_properties d ≡ ok d')
      × (lookup self_node_instances (properties_of node_profile_object d')
          ≡ some (record { epc = self_node_instances; edt = some count }))
      × (to_int {E = ProfileError} instances_desc count
          ≡ ok (some (pos (length (get_instance_list d)))))
      × (lookup self_node_instance_list_s (properties_of node_profile_object d')
          ≡ some (record { epc = self_node_instance_list_s; edt = some edt }))
      × (decode_instance_list {E = ProfileError} edt ≡ ok (some (get_instance_list d)))
update_profile_object_properties_lem d short codes =
    let eojs : List ℕ = get_instance_list d in
    let classes : List ℕ = keys (add_classes eojs []) in
    let few : length classes < 65536 =
      let bound = length-add_classes eojs [] in unfold keys in omega arith in
    let (count, counted, number) = instances-Counted (length eojs) (omega arith) in
    let (class_count, class_counted, class_number) = classes-Counted (length classes) few in
    let (edt, written, read) =
      >>=-eq-ok (instance_list_edt {E = ProfileError} eojs) decode_instance_list
        (decode_instance_list-instance_list_edt {E = ProfileError} eojs short codes) in
    let class_bytes : List ℕ = length classes % 256 ∷ joined bytes2 classes in
    let class_written = class_list_edt_ok {E = ProfileError} classes in
    let (d', done, stored) =
      set-four (record { epc = self_node_instances; edt = some count })
        (record { epc = self_node_instance_list_s; edt = some edt })
        (record { epc = self_node_classes; edt = some class_count })
        (record { epc = self_node_class_list_s; edt = some class_bytes }) d in
    let (first, second) =
      lookup-four count edt class_count class_bytes (properties_of node_profile_object d) in
    (
      d',
      count,
      edt,
      update-steps d d' count class_count edt class_bytes counted class_counted written
          class_written done,
      rw stored first,
      number,
      rw stored second,
      read,
    )
