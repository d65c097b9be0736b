-- ===== src/Handler/Locations.antt =====
-- Location aliases and the order of the locations: echonet_lite/handler/LocationSettings.go.
pub mod Laws
use echonet_list.Base.{
  ℕ, zero, suc, ◌+◌, ◌-◌, Bool, true, false, not, ◌&&◌, ◌||◌, List, [], ◌∷◌, ◌++◌, Option, none,
  some, Result, ok, err, ◌>>=◌, any, length, ◌==◌, leb, ltb, if◌then◌else◌,
}
use echonet_list.Base.Keys.{Text, ◌=?◌, text_eq, nat_eq}
use echonet_list.Base.Maps.{contains, lookup, has, insert, delete, keys}
use echonet_list.Base.Sorting.{sort_by, sort_texts}

pub data LocationError : Type 0 where
  empty_alias no_hash too_short too_long second_hash prohibited : LocationError
  already_exists not_found : Text → LocationError

abbrev pub between : ℕ → ℕ → ℕ → Bool
between lo hi b = leb lo b && leb b hi

-- The bounds of the second byte after each first byte of a UTF-8 sequence.
unfoldable pub second_byte : ℕ → ℕ → Bool
second_byte a b =
    if a == 0xE0
    then between 0xA0 0xBF b
    else if a == 0xED
    then between 0x80 0x9F b
    else if a == 0xF0
    then between 0x90 0xBF b
    else if a == 0xF4
    then between 0x80 0x8F b
    else between 0x80 0xBF b

-- How many bytes the rune has that starts with the byte; 1 for a byte that starts none.
unfoldable pub rune_length : ℕ → List ℕ → ℕ
rune_length a [] = 1
rune_length a (b ∷ []) = if between 0xC2 0xDF a && second_byte a b then 2 else 1
rune_length a (b ∷ c ∷ []) =
    if between 0xC2 0xDF a && second_byte a b
    then 2
    else if between 0xE0 0xEF a && second_byte a b && between 0x80 0xBF c
    then 3
    else 1
rune_length a (b ∷ c ∷ d ∷ s) =
    if between 0xC2 0xDF a && second_byte a b
    then 2
    else if between 0xE0 0xEF a && second_byte a b && between 0x80 0xBF c
    then 3
    else if between 0xF0 0xF4 a && second_byte a b && between 0x80 0xBF c && between 0x80 0xBF d
    then 4
    else 1

-- `utf8.RuneCountInString`, with the number of bytes left of the rune before.
unfoldable pub rune_count_from : ℕ → Text → ℕ
rune_count_from k [] = 0
rune_count_from (suc k) (b ∷ s) = rune_count_from k s
rune_count_from zero (b ∷ s) = suc (rune_count_from (rune_length b s - 1) s)

unfoldable pub rune_count : Text → ℕ
rune_count s = rune_count_from 0 s

abbrev pub max_location_alias_length : ℕ
max_location_alias_length = 32

-- The characters of `locationAliasProhibitedChars`, all of one byte.
abbrev pub prohibited_chars : List ℕ
prohibited_chars =
    9 ∷ 10 ∷ 13 ∷ 32 ∷ 34 ∷ 33 ∷ 36 ∷ 37 ∷ 38 ∷ 39 ∷ 40 ∷ 41 ∷ 42 ∷ 44 ∷ 47 ∷ 59 ∷ 60 ∷ 61 ∷ 62 ∷ 63
    ∷ 64 ∷ 91 ∷ 92 ∷ 93 ∷ 94 ∷ 96 ∷ 123 ∷ 124 ∷ 125 ∷ 126 ∷ []

unfoldable pub validate_location_alias : Text → Result LocationError (Unit {0})
validate_location_alias [] = err empty_alias
validate_location_alias (c ∷ after_prefix) =
    if not (c == 35)
    then err no_hash
    else if leb (length (c ∷ after_prefix)) 1
    then err too_short
    else if ltb max_location_alias_length (rune_count (c ∷ after_prefix))
    then err too_long
    else if contains after_prefix 35
    then err second_hash
    else if any (contains prohibited_chars) after_prefix
    then err prohibited
    else ok tt

-- From the alias to the raw location.
abbrev pub LocationAliases : Type 0
LocationAliases = List (Text × Text)

unfoldable pub add : Text → Text → LocationAliases → Result LocationError LocationAliases
add alias value a = do
  valid ← validate_location_alias alias
  if has alias a then err (already_exists alias) else ok (insert alias value a)

unfoldable pub update : Text → Text → LocationAliases → Result LocationError LocationAliases
update alias value a = do
  valid ← validate_location_alias alias
  if has alias a then ok (insert alias value a) else err (not_found alias)

unfoldable pub remove : Text → LocationAliases → Result LocationError LocationAliases
remove alias a = if has alias a then ok (delete alias a) else err (not_found alias)

unfoldable pub find_by_alias : Text → LocationAliases → Option Text
find_by_alias alias a = lookup alias a

unfoldable pub with_value : Text → LocationAliases → List Text
with_value value [] = []
with_value value ((alias, v) ∷ a) =
    let rest = with_value value a in if v =? value then alias ∷ rest else rest

unfoldable pub find_aliases_by_value : Text → LocationAliases → List Text
find_aliases_by_value value a = sort_texts (with_value value a)

unfoldable pub list_aliases : LocationAliases → List (Text × Text)
list_aliases a = sort_by (λ pair. pair.0) a

-- `LocationOrder.Set` and `Reset`, on the order that there was.
unfoldable pub set_order : List Text → List Text → List Text
set_order order old = order

unfoldable pub reset_order : List Text → List Text
reset_order old = []

-- `EnsureLocation`: whether the location was added, and the order.
unfoldable pub ensure_location : Text → List Text → Bool × List Text
ensure_location location order =
    if contains order location then (false, order) else (true, order ++ (location ∷ []))

-- The set of the given locations.
unfoldable pub location_set : List Text → List (Text × Unit {0}) → List (Text × Unit {0})
location_set [] set = set
location_set (loc ∷ locations) set = location_set locations (insert loc tt set)

-- The locations of the order that are in the set, and the set without them.
unfoldable pub pick : List Text → List (Text × Unit {0}) → List Text × List (Text × Unit {0})
pick [] set = ([], set)
pick (loc ∷ order) set =
    let here = has loc set in
    let (result, left) = pick order (if here then delete loc set else set) in
    (if here then loc ∷ result else result, left)

-- `ApplyOrder`
unfoldable pub apply_order : List Text → List Text → List Text
apply_order [] locations = sort_texts locations
apply_order (first ∷ order) locations =
    let (result, left) = pick (first ∷ order) (location_set locations []) in
    result ++ sort_texts (keys left)
