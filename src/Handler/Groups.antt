-- ===== src/Handler/Groups.antt =====
-- Groups of devices: `DeviceGroups` in echonet_lite/handler/DeviceGroups.go.
-- A device is named by its id string, and a group by a name that starts with `@`.
pub mod Laws
use echonet_list.Base.{
  ℕ, Bool, true, false, not, ◌||◌, List, [], ◌∷◌, ◌++◌, Option, none, some, Result, ok, err, panic,
  ◌>>=◌, any, length, ◌==◌, leb, or_else, if◌then◌else◌,
}
use echonet_list.Base.Keys.{Text, text_eq, nat_eq}
use echonet_list.Base.Maps.{contains, lookup, has, insert, delete, keys}
use echonet_list.Base.Sorting.{sort_texts}

abbrev pub Groups : Type 0
Groups = List (Text × List Text)

pub data GroupError : Type 0 where
  no_at_sign too_short has_space : GroupError
  no_such_group : Text → GroupError

unfoldable pub has_prefix : ℕ → Text → Bool
has_prefix c [] = false
has_prefix c (b ∷ s) = b == c

-- " \t\n\r"
abbrev pub spaces : List ℕ
spaces = 32 ∷ 9 ∷ 10 ∷ 13 ∷ []

-- `strings.ContainsAny`, of a set of one-byte characters.
unfoldable pub contains_any : Text → List ℕ → Bool
contains_any s chars = any (contains chars) s

unfoldable pub validate_group_name : Text → Result GroupError (Unit {0})
validate_group_name name =
    if not (has_prefix 64 name)
    then err no_at_sign
    else if leb (length name) 1
    then err too_short
    else if contains_any name spaces
    then err has_space
    else ok tt

-- The loop of `GroupAdd`: a device that is there already is not added again.
unfoldable pub append_new : List Text → List Text → List Text
append_new existing [] = existing
append_new existing (device ∷ devices) =
    append_new (if contains existing device then existing else existing ++ (device ∷ [])) devices

unfoldable pub group_add : Text → List Text → Groups → Result GroupError Groups
group_add name devices g = do
  valid ← validate_group_name name
  ok (insert name (append_new (or_else (lookup name g) []) devices) g)

unfoldable pub without : List Text → List Text → List Text
without devices [] = []
without devices (x ∷ existing) =
    let rest = without devices existing in if contains devices x then rest else x ∷ rest

-- An emptied group is deleted.
unfoldable pub store_group : Text → List Text → Groups → Groups
store_group name [] g = delete name g
store_group name (x ∷ left) g = insert name (x ∷ left) g

unfoldable pub no_devices : List Text → Bool
no_devices [] = true
no_devices (x ∷ devices) = false

unfoldable pub group_remove : Text → List Text → Groups → Result GroupError Groups
group_remove name devices g = do
  valid ← validate_group_name name
  elim (lookup name g) [
    | none ↦ err (no_such_group name)
    | some existing ↦
        if no_devices devices then ok g else ok (store_group name (without devices existing) g)
  ]

unfoldable pub group_delete : Text → Groups → Result GroupError Groups
group_delete name g = do
  valid ← validate_group_name name
  if has name g then ok (delete name g) else err (no_such_group name)

unfoldable pub named_groups : Groups → List Text → List (Text × List Text)
named_groups g [] = []
named_groups g (name ∷ names) = (name, or_else (lookup name g) []) ∷ named_groups g names

-- `GroupList`: one group, or all in the order of their names.
unfoldable pub group_list : Option Text → Groups → List (Text × List Text)
group_list (some name) g = elim (lookup name g) [ none ↦ [] | some devices ↦ (name, devices) ∷ [] ]
group_list none g = named_groups g (sort_texts (keys g))

-- The list and `true`, or nothing for a bad or unknown name.
unfoldable pub get_devices_by_group : Text → Groups → Option (List Text)
get_devices_by_group name g = elim (validate_group_name name) [
  | ok u ↦ lookup name g
  | err e ↦ none
  | panic ↦ none
]

unfoldable pub count : Groups → ℕ
count g = length g
