-- ===== src/EchonetLite/NodeProfile.antt =====
-- Properties of the node profile object: echonet_lite/node_profile.go.
pub mod Laws
use echonet_list.Base.{
  ℕ, zero, suc, ◌+◌, ◌*◌, ◌/◌, ◌%◌, Bool, true, false, List, [], ◌∷◌, ◌++◌, Option, none, some,
  Result, ok, err, or_panic, ◌>>=◌, length, take, drop, get_elem?, ltb, ◌==◌, if◌then◌else◌, not,
}
use echonet_list.EchonetLite.Object.{decode_eoj, encode_eoj, encode_class}

pub record VersionInfo : Type 0 where
  pub major_version : ℕ
  pub minor_version : ℕ
  pub is_default : Bool
  pub is_optional : Bool

-- `NPO_DecodeVersionInfo`; `& 0x01` and `& 0x02` are the two lowest bits.
unfoldable pub decode_version_info : List ℕ → Option VersionInfo
decode_version_info (a ∷ b ∷ c ∷ rest) = some (record {
  major_version = a;
  minor_version = b;
  is_default = not (c % 2 == 0);
  is_optional = not (c / 2 % 2 == 0);
})
decode_version_info _ = none

-- `NPO_VersionInfo.EDT`, of a pointer that is not nil.
unfoldable pub version_info_edt : VersionInfo → List ℕ
version_info_edt v =
    let third_byte = (if v.is_default then 1 else 0) + (if v.is_optional then 2 else 0) in
    v.major_version ∷ v.minor_version ∷ third_byte ∷ []

-- The loop of `DecodeInstanceList`, which has tested the length: `n` objects of three bytes each.
unfoldable pub decode_instances : {E : Type 0} → ℕ → List ℕ → Result E (List ℕ)
decode_instances zero b = ok []
decode_instances (suc n) b = do
  eoj ← decode_eoj (take 3 b)
  eojs ← decode_instances n (drop 3 b)
  ok (eoj ∷ eojs)

-- `DecodeInstanceList`; nil is none.
unfoldable pub decode_instance_list : {E : Type 0} → List ℕ → Result E (Option (List ℕ))
decode_instance_list [] = ok none
decode_instance_list (instances ∷ b) =
    if ltb (length (instances ∷ b)) (1 + instances * 3)
    then ok none
    else (decode_instances instances b >>= λ eojs. ok (some eojs))

unfoldable pub encode_all : {E : Type 0} → (ℕ → Result E (List ℕ)) → List ℕ → Result E (List ℕ)
encode_all encode [] = ok []
encode_all encode (x ∷ xs) = do b ← encode x; rest ← encode_all encode xs; ok (b ++ rest)

-- `InstanceList.EDT`, of a pointer that is not nil.
unfoldable pub instance_list_edt : {E : Type 0} → List ℕ → Result E (List ℕ)
instance_list_edt eojs = do b ← encode_all encode_eoj eojs; ok (length eojs % 256 ∷ b)

-- The loop of `DecodeSelfNodeClassListS`: one byte of every two is read.
unfoldable pub decode_classes : {E : Type 0} → ℕ → List ℕ → Result E (List ℕ)
decode_classes zero b = ok []
decode_classes (suc n) b = do
  class ← or_panic (get_elem? b 0)
  classes ← decode_classes n (drop 2 b)
  ok (class ∷ classes)

unfoldable pub decode_self_node_class_list_s : {E : Type 0} → List ℕ → Result E (Option (List ℕ))
decode_self_node_class_list_s [] = ok none
decode_self_node_class_list_s (classes ∷ b) =
    if ltb (length (classes ∷ b)) (1 + classes * 2)
    then ok none
    else (decode_classes classes b >>= λ cs. ok (some cs))

-- `SelfNodeClassListS.EDT`, of a pointer that is not nil.
unfoldable pub class_list_edt : {E : Type 0} → List ℕ → Result E (List ℕ)
class_list_edt classes = do b ← encode_all encode_class classes; ok (length classes % 256 ∷ b)
