-- ===== src/EchonetLite/NodeProfile/Laws.antt =====
-- The round trips of the node profile's properties.
use echonet_list.Base.{
  ℕ, suc, ◌+◌, ◌*◌, ◌/◌, ◌%◌, ◌^◌, ◌<◌, ◌≡◌, refl, sym, ap, ◌∙◌, arith, false, List, [], ◌∷◌, ◌++◌,
  map, some, Result, ok, ◌>>=◌, length, All, ltb,
}
use echonet_list.EchonetLite.Bytes.{uint32_to_bytes, uint32_to_bytes_loop}
use echonet_list.EchonetLite.Object.{decode_eoj, encode_eoj, encode_class}
use echonet_list.EchonetLite.Object.Laws.{decode_eoj-encode_eoj}
use echonet_list.EchonetLite.NodeProfile.{
  VersionInfo, decode_version_info, version_info_edt, decode_instances, decode_instance_list,
  encode_all, instance_list_edt, decode_classes, decode_self_node_class_list_s, class_list_edt,
}

-- A version survives the trip to its three bytes and back.
decode_version_info-version_info_edt :
    (v : VersionInfo) → decode_version_info (version_info_edt v) ≡ some v
unfolding decode_version_info version_info_edt
decode_version_info-version_info_edt v = ground arith

-- The bytes of an object code.
abbrev bytes3 : ℕ → List ℕ
bytes3 e = e / 2 ^ 16 % 256 ∷ e / 2 ^ 8 % 256 ∷ e / 2 ^ 0 % 256 ∷ []

encode_eoj_ok : {E : Type 0} (e : ℕ) → encode_eoj {E = E} e ≡ ok (bytes3 e)
unfolding encode_eoj uint32_to_bytes uint32_to_bytes_loop
encode_eoj_ok e = refl

-- The bytes of a list, one element after the other.
abbrev pub joined : (ℕ → List ℕ) → List ℕ → List ℕ
joined f [] = []
joined f (x ∷ xs) = f x ++ joined f xs

encode_all_ok :
    {E : Type 0} (encode : ℕ → Result E (List ℕ)) (f : ℕ → List ℕ)
    → ((x : ℕ) → encode x ≡ ok (f x))
    → (xs : List ℕ) → encode_all encode xs ≡ ok (joined f xs)
unfolding encode_all
encode_all_ok encode f h [] = refl
encode_all_ok encode f h (x ∷ xs) = rw (h x) (rw (encode_all_ok encode f h xs) refl)

decode_instances-joined :
    {E : Type 0} (es : List ℕ)
    → All (λ e. e < 2 ^ 24) es
    → decode_instances {E = E} (length es) (joined bytes3 es) ≡ ok es
unfolding decode_instances
decode_instances-joined [] h = refl
decode_instances-joined {E} (e ∷ es) (he, h) =
    let one : decode_eoj {E = E} (bytes3 e) ≡ ok e =
      sym (ap (λ r. r >>= decode_eoj {E = E}) (encode_eoj_ok {E = E} e))
      ∙ decode_eoj-encode_eoj {E = E} e he in
    rw one (rw (decode_instances-joined {E = E} es h) refl)

length-joined3 : (es : List ℕ) → length (joined bytes3 es) ≡ length es * 3
length-joined3 [] = refl
length-joined3 (e ∷ es) = omega (arith, length-joined3 es)

-- A list of at most 255 object codes survives the trip to its bytes and back.
pub decode_instance_list-instance_list_edt :
    {E : Type 0} (es : List ℕ)
    → length es < 256
    → All (λ e. e < 2 ^ 24) es
    → (instance_list_edt es >>= decode_instance_list {E = E}) ≡ ok (some es)
unfolding instance_list_edt decode_instance_list
decode_instance_list-instance_list_edt {E} es short h =
    let count : length es % 256 ≡ length es = omega arith in
    let long : ltb (suc (length (joined bytes3 es))) (1 + length es * 3) ≡ false =
      ground (arith, length-joined3 es) in
    rw
      (
        encode_all_ok {E = E} encode_eoj bytes3 encode_eoj_ok es,
        count,
        long,
        decode_instances-joined {E = E} es h,
      )
      refl

abbrev pub bytes2 : ℕ → List ℕ
bytes2 c = c / 2 ^ 8 % 256 ∷ c / 2 ^ 0 % 256 ∷ []

encode_class_ok : {E : Type 0} (c : ℕ) → encode_class {E = E} c ≡ ok (bytes2 c)
unfolding encode_class uint32_to_bytes uint32_to_bytes_loop
encode_class_ok c = refl

decode_classes-joined :
    {E : Type 0} (cs : List ℕ)
    → decode_classes {E = E} (length cs) (joined bytes2 cs) ≡ ok (map (λ c. c / 256 % 256) cs)
unfolding decode_classes
decode_classes-joined [] = refl
decode_classes-joined {E} (c ∷ cs) = rw (decode_classes-joined {E = E} cs) refl

length-joined2 : (cs : List ℕ) → length (joined bytes2 cs) ≡ length cs * 2
length-joined2 [] = refl
length-joined2 (e ∷ es) = omega (arith, length-joined2 es)

-- Of a list of at most 255 class codes only the class group bytes come back: the decoder reads the
-- first of the two bytes of each class and drops the second.
pub decode_self_node_class_list_s-class_list_edt :
    {E : Type 0} (cs : List ℕ)
    → length cs < 256
    → (class_list_edt cs >>= decode_self_node_class_list_s {E = E})
      ≡ ok (some (map (λ c. c / 256 % 256) cs))
unfolding class_list_edt decode_self_node_class_list_s
decode_self_node_class_list_s-class_list_edt {E} cs short =
    let count : length cs % 256 ≡ length cs = omega arith in
    let long : ltb (suc (length (joined bytes2 cs))) (1 + length cs * 2) ≡ false =
      ground (arith, length-joined2 cs) in
    rw
      (
        encode_all_ok {E = E} encode_class bytes2 encode_class_ok cs,
        count,
        long,
        decode_classes-joined {E = E} cs,
      )
      refl

-- The encoding of a class list never fails.
pub class_list_edt_ok :
    {E : Type 0} (cs : List ℕ) → class_list_edt {E = E} cs ≡ ok (length cs % 256 ∷ joined bytes2 cs)
unfolding class_list_edt
class_list_edt_ok {E} cs = rw (encode_all_ok {E = E} encode_class bytes2 encode_class_ok cs) refl
