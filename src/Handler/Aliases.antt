-- ===== src/Handler/Aliases.antt =====
-- Aliases of devices: `DeviceAliases` in echonet_lite/handler/DeviceAliases.go.
pub mod Laws
use echonet_list.Base.{
  ℕ, ◌%◌, Bool, true, false, not, ◌&&◌, ◌||◌, List, [], ◌∷◌, ◌++◌, Option, none, some, Result, ok,
  err, ◌>>=◌, all, length, ◌==◌, leb, if◌then◌else◌,
}
use echonet_list.Base.Keys.{Text, ◌=?◌, text_eq, nat_eq}
use echonet_list.Base.Maps.{contains, lookup, has, insert, delete, keys}
use echonet_list.Base.Sorting.{sort_by}

-- From the alias to the id string of its device.
abbrev pub DeviceAliases : Type 0
DeviceAliases = List (Text × Text)

pub data AliasError : Type 0 where
  empty_alias hexadecimal_alias symbol_first : AliasError
  already_exists not_found : Text → AliasError
  id_not_found : Text → AliasError

unfoldable pub is_hex_digit : ℕ → Bool
is_hex_digit c = leb 48 c && leb c 57 || leb 65 c && leb c 70 || leb 97 c && leb c 102

-- The characters of `invalidFirstChar`.
abbrev pub symbols : List ℕ
symbols =
    33 ∷ 34 ∷ 35 ∷ 36 ∷ 37 ∷ 38 ∷ 39 ∷ 40 ∷ 41 ∷ 42 ∷ 43 ∷ 44 ∷ 46 ∷ 47 ∷ 58 ∷ 59 ∷ 60 ∷ 61 ∷ 62
    ∷ 63 ∷ 64 ∷ 91 ∷ 92 ∷ 93 ∷ 94 ∷ 95 ∷ 123 ∷ 124 ∷ 125 ∷ 126 ∷ 45 ∷ []

unfoldable pub validate_device_alias : Text → Result AliasError (Unit {0})
validate_device_alias [] = err empty_alias
validate_device_alias (c ∷ s) =
    if length (c ∷ s) % 2 == 0 && all is_hex_digit (c ∷ s)
    then err hexadecimal_alias
    else if contains symbols c
    then err symbol_first
    else ok tt

unfoldable pub register : Text → Text → DeviceAliases → Result AliasError DeviceAliases
register alias id a = do
  valid ← validate_device_alias alias
  if has alias a then err (already_exists alias) else ok (insert alias id a)

unfoldable pub find_by_alias : Text → DeviceAliases → Option Text
find_by_alias alias a = lookup alias a

unfoldable pub find_aliases_by_id_string : Text → DeviceAliases → List Text
find_aliases_by_id_string id [] = []
find_aliases_by_id_string id ((alias, registered) ∷ a) =
    let rest = find_aliases_by_id_string id a in if registered =? id then alias ∷ rest else rest

unfoldable pub delete_by_alias : Text → DeviceAliases → Result AliasError DeviceAliases
delete_by_alias alias a = if has alias a then ok (delete alias a) else err (not_found alias)

-- The loop of `DeleteByIDString`: whether something was found, and what is left.
unfoldable pub delete_id : Text → DeviceAliases → Bool × DeviceAliases
delete_id id [] = (false, [])
delete_id id ((alias, registered) ∷ a) =
    let (found, rest) = delete_id id a in
    if registered =? id then (true, rest) else (found, (alias, registered) ∷ rest)

unfoldable pub delete_by_id_string : Text → DeviceAliases → Result AliasError DeviceAliases
delete_by_id_string id a =
    let (found, rest) = delete_id id a in if found then ok rest else err (id_not_found id)

-- `List`
unfoldable pub list_aliases : DeviceAliases → List (Text × Text)
list_aliases a = sort_by (λ pair. pair.0) a
