-- ===== src/EchonetLite/Object.antt =====
-- Objects: echonet_lite/EOJ.go. An EOJ is a uint32, a class code a uint16, an instance code a uint8.
pub mod Laws
use echonet_list.Base.{ℕ, ◌*◌, ◌/◌, ◌%◌, List, [], ◌∷◌, Result, ok, ◌>>=◌}
use echonet_list.EchonetLite.Bytes.{u32, uint32_to_bytes, bytes_to_uint32}
use Prim.Native.Nat.{bit_or}

-- `e >> 8 & 0xffff`
unfoldable pub class_code : ℕ → ℕ
class_code e = e / 256 % 65536

unfoldable pub instance_code : ℕ → ℕ
instance_code e = e % 256

unfoldable pub class_group_code : ℕ → ℕ
class_group_code c = c / 256 % 256

unfoldable pub make_eoj : ℕ → ℕ → ℕ
make_eoj class instance_nr = bit_or (class * 256 % u32) instance_nr

-- Any length but 3 gives 0.
unfoldable pub decode_eoj : {E : Type 0} → List ℕ → Result E ℕ
decode_eoj (a ∷ b ∷ c ∷ []) = do n ← bytes_to_uint32 (a ∷ b ∷ []); ok (make_eoj (n % 65536) c)
decode_eoj _ = ok 0

unfoldable pub encode_eoj : {E : Type 0} → ℕ → Result E (List ℕ)
encode_eoj e = uint32_to_bytes e 3

-- `EOJClassCode.Encode`
unfoldable pub encode_class : {E : Type 0} → ℕ → Result E (List ℕ)
encode_class c = uint32_to_bytes c 2

-- `NodeProfile_ClassCode` of prop_NodeProfileObject.go, and `NodeProfileObject` of node_profile.go.
abbrev pub node_profile_class_code : ℕ
node_profile_class_code = 0x0ef0

abbrev pub node_profile_object : ℕ
node_profile_object = 0x0ef001
