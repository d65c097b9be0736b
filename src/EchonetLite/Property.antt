-- ===== src/EchonetLite/Property.antt =====
-- Properties and lists of them: echonet_lite/Property.go.
-- An EDT is nil (`none`) or a slice (`some`); the two differ for a reader that tests `EDT != nil`.
pub mod Laws
use echonet_list.Base.{
  ℕ, ◌%◌, Bool, true, false, List, [], ◌∷◌, ◌++◌, Option, none, some, length, ◌==◌, if◌then◌else◌,
  map,
}
use echonet_list.EchonetLite.Bytes.{flatten_bytes}

pub record Property : Type 0 where
  pub epc : ℕ
  pub edt : Option (List ℕ)

-- What `len`, `copy` and `range` see of an EDT.
abbrev pub edt_bytes : Option (List ℕ) → List ℕ
edt_bytes none = []
edt_bytes (some b) = b

-- `Property.Encode`; `byte(PDC)` wraps.
unfoldable pub encode_property : Property → List ℕ
encode_property p = p.epc ∷ (length (edt_bytes p.edt) % 256) ∷ edt_bytes p.edt

-- `Properties.Encode`
unfoldable pub encode_properties : List Property → List ℕ
encode_properties ps = flatten_bytes ((length ps % 256 ∷ []) ∷ map encode_property ps)

-- `Properties.FindEPC`
unfoldable pub find_epc : ℕ → List Property → Option Property
find_epc epc [] = none
find_epc epc (p ∷ ps) = if p.epc == epc then some p else find_epc epc ps

-- `Properties.UpdateProperty`: the first property with the code is replaced, or the new one appended.
unfoldable pub update_property : List Property → Property → List Property
update_property [] prop = prop ∷ []
update_property (p ∷ ps) prop = if p.epc == prop.epc then prop ∷ ps else p ∷ update_property ps prop
