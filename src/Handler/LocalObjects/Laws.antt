-- ===== src/Handler/LocalObjects/Laws.antt =====
-- What a remote Get and Set do to the objects of this node.
use echonet_list.Base.{
  ℕ, ◌+◌, ◌≤◌, ◌<◌, ◌≡◌, refl, ap, ◌∙◌, arith, Bool, not, ◌&&◌, ◌||◌, List, [], ◌∷◌, some, length,
  All, ◌==◌, Bool-cases, inl, inr,
}
use echonet_list.Base.Keys.{nat_eq}
use echonet_list.Base.Maps.{keys, contains}
use echonet_list.EchonetLite.PropertyMap.{has_epc, set_epc, collect, encode_map, decode_map}
use echonet_list.EchonetLite.PropertyMap.Sets.{has_epc-set_epc, has_epc-collect}
use echonet_list.EchonetLite.PropertyMap.RoundTrip.{IsEpc, decode_map-encode_map}
use echonet_list.Handler.LocalObjects.{
  DeviceProperties, properties_of, read_only, settable_only, set_map, get_map, get, writable_map,
  epc_get_property_map,
}

-- The codes of an object are property codes, and a count byte can hold their number.
abbrev pub IsMappable : ℕ → DeviceProperties → Type 0
IsMappable eoj d =
    All IsEpc (keys (properties_of eoj d)) × (length (keys (properties_of eoj d)) < 256)

-- A code is writable if the object has it and it is not in the table of read-only codes.
abbrev pub writable : ℕ → DeviceProperties → ℕ → Bool
writable eoj d epc = not (read_only epc) && contains (keys (properties_of eoj d)) epc

settable_only_members :
    (x : ℕ) (epcs : List ℕ)
    → has_epc x (settable_only epcs) ≡ (not (read_only x) && contains epcs x)
unfolding settable_only has_epc
settable_only_members x [] = ground arith
settable_only_members x (y ∷ ys) = elim (Bool-cases (y == x)) [
  | inl e ↦
      let same : y ≡ x = ground arith in
      ground (arith, settable_only_members x ys, ap read_only same)
  | inr e ↦ ground (arith, settable_only_members x ys)
]

All-settable_only : (epcs : List ℕ) → All IsEpc epcs → All IsEpc (settable_only epcs)
unfolding settable_only
All-settable_only [] h = tt
All-settable_only (y ∷ ys) (hy, h) = elim (Bool-cases (read_only y)) [
  | inl e ↦ rw e (All-settable_only ys h)
  | inr e ↦ rw e (hy, All-settable_only ys h)
]

length-settable_only : (epcs : List ℕ) → length (settable_only epcs) ≤ length epcs
unfolding settable_only
length-settable_only [] = omega arith
length-settable_only (y ∷ ys) = ground (arith, length-settable_only ys)

All-collect : (bs m : List ℕ) → All IsEpc bs → All IsEpc m → All IsEpc (collect bs m)
unfolding collect set_epc
All-collect [] m hb hm = hm
All-collect (b ∷ bs) m (hb, h) hm = elim (Bool-cases (contains m b)) [
  | inl e ↦ rw e (All-collect bs m h hm)
  | inr e ↦ rw e (All-collect bs (b ∷ m) h (hb, hm))
]

length-collect : (bs m : List ℕ) → length (collect bs m) ≤ length bs + length m
unfolding collect set_epc
length-collect [] m = omega arith
length-collect (b ∷ bs) m = ground (arith, length-collect bs m, length-collect bs (b ∷ m))

-- The map that `SetProperties` decodes holds exactly the writable codes.
pub writable_map_members :
    (eoj epc : ℕ) (d : DeviceProperties)
    → IsMappable eoj d
    → epc < 256
    → has_epc epc (writable_map eoj d) ≡ writable eoj d epc
unfolding writable_map set_map
writable_map_members eoj epc d (hk, hl) he =
    let ks : List ℕ = keys (properties_of eoj d) in
    let (m, decoded, same) =
      decode_map-encode_map (collect (settable_only ks) [])
        (All-collect (settable_only ks) [] (All-settable_only ks hk) tt)
        (omega (arith, length-collect (settable_only ks) [], length-settable_only ks)) in
    rw (decoded, writable_map)
      (same epc he
        ∙ has_epc-collect epc (settable_only ks) []
        ∙ rw (settable_only_members epc ks) (unfold has_epc in ground arith))

All-set_epc : (epc : ℕ) (m : List ℕ) → IsEpc epc → All IsEpc m → All IsEpc (set_epc epc m)
unfolding set_epc
All-set_epc epc m he hm = ground arith

length-set_epc : (epc : ℕ) (m : List ℕ) → length (set_epc epc m) ≤ length m + 1
unfolding set_epc
length-set_epc epc m = ground arith

has_epc-contains : (x : ℕ) (m : List ℕ) → has_epc x m ≡ contains m x
unfolding has_epc
has_epc-contains x m = refl

-- The Get property map of an object whose codes are property codes, at most 252 of them, is always
-- answered, and it lists the object's codes and the three property maps, and no other code.
pub get-get_property_map :
    (eoj : ℕ) (d : DeviceProperties)
    → All IsEpc (keys (properties_of eoj d))
    → length (keys (properties_of eoj d)) ≤ 252
    → (b m : List ℕ) × (get eoj epc_get_property_map d
        ≡ some (record { epc = epc_get_property_map; edt = some b }))
      × (decode_map b ≡ some m)
      × ((x : ℕ)
          → x < 256
          → has_epc x m
            ≡ (x == 0x9d || x == 0x9e || x == 0x9f || contains (keys (properties_of eoj d)) x))
unfolding get get_map
get-get_property_map eoj d hk hl =
    let ks : List ℕ = keys (properties_of eoj d) in
    let m0 : List ℕ = collect ks [] in
    let m3 : List ℕ = get_map eoj d in
    let (m, decoded, same) =
      decode_map-encode_map m3
        (All-set_epc 0x9d (set_epc 0x9e (set_epc 0x9f m0)) (omega arith) (
          All-set_epc 0x9e (set_epc 0x9f m0) (omega arith)
            (All-set_epc 0x9f m0 (omega arith) (All-collect ks [] hk tt))))
        (omega (
          arith,
          length-set_epc 0x9f m0,
          length-set_epc 0x9e (set_epc 0x9f m0),
          length-set_epc 0x9d (set_epc 0x9e (set_epc 0x9f m0)),
          length-collect ks [],
        )) in
    (
      encode_map m3,
      m,
      refl,
      decoded,
      λ x hx.
          same x hx
          ∙ ground (
            arith,
            has_epc-set_epc x 0x9d (set_epc 0x9e (set_epc 0x9f m0)),
            has_epc-set_epc x 0x9e (set_epc 0x9f m0),
            has_epc-set_epc x 0x9f m0,
            has_epc-collect x ks [],
            has_epc-contains x ks,
            has_epc-contains x [],
          ),
    )
