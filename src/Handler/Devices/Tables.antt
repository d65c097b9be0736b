-- ===== src/Handler/Devices/Tables.antt =====
-- Tables of addresses and objects without repetitions, and what keeps them so.
use echonet_list.Base.{ℕ, ◌<◌, ◌^◌, List, [], ◌∷◌, All, ◌==◌, or_else, Bool-cases, inl, inr}
use echonet_list.Base.Keys.{Text, ◌=?◌, nat_eq, text_eq}
use echonet_list.Base.Maps.{
  Distinct, keys, lookup, insert, delete, lookup-insert, lookup-delete, insert-Distinct,
  delete-Distinct,
}
use echonet_list.Handler.LocalObjects.{EpcPropertyMap, DeviceProperties}
use echonet_list.Handler.Devices.{put_back}

-- The objects of one address: no code twice, and each of three bytes.
abbrev pub IsObjects : DeviceProperties → Type 0
IsObjects objects = Distinct (keys objects) × All (λ eoj. eoj < 2 ^ 24) (keys objects)

-- A table of addresses: none twice, and each with objects like these.
abbrev pub IsTable : List (Text × DeviceProperties) → Type 0
IsTable table = Distinct (keys table) × ((ip : Text) → IsObjects (or_else (lookup ip table) []))

All-insert :
    (eoj : ℕ) (props : EpcPropertyMap) (objects : DeviceProperties)
    → eoj < 2 ^ 24
    → All (λ e. e < 2 ^ 24) (keys objects)
    → All (λ e. e < 2 ^ 24) (keys (insert eoj props objects))
unfolding keys insert
All-insert eoj props [] h hs = (h, tt)
All-insert eoj props ((i, q) ∷ objects) h (hi, hs) = elim (Bool-cases (i == eoj)) [
  | inl same ↦ rw (insert, same) (h, hs)
  | inr apart ↦ rw (insert, apart) (hi, All-insert eoj props objects h hs)
]

pub All-delete :
    (eoj : ℕ) (objects : DeviceProperties)
    → All (λ e. e < 2 ^ 24) (keys objects)
    → All (λ e. e < 2 ^ 24) (keys (delete eoj objects))
unfolding keys delete
All-delete eoj [] hs = tt
All-delete eoj ((i, q) ∷ objects) (hi, hs) = elim (Bool-cases (i == eoj)) [
  | inl same ↦ rw (delete, same) (All-delete eoj objects hs)
  | inr apart ↦ rw (delete, apart) (hi, All-delete eoj objects hs)
]

pub insert-IsTable :
    (ip : Text) (objects : DeviceProperties) (table : List (Text × DeviceProperties))
    → IsObjects objects
    → IsTable table
    → IsTable (insert ip objects table)
insert-IsTable ip objects table h (distinct, hs) = (
  insert-Distinct ip objects table distinct,
  λ ip'.
      rw (lookup-insert ip ip' objects table)
        (elim (Bool-cases (ip =? ip')) [ inl same ↦ rw same h | inr apart ↦ rw apart (hs ip') ]),
)

pub delete-IsTable :
    (ip : Text) (table : List (Text × DeviceProperties)) → IsTable table → IsTable (delete ip table)
delete-IsTable ip table (distinct, hs) = (
  delete-Distinct ip table distinct,
  λ ip'. rw (lookup-delete ip ip' table) (elim (Bool-cases (ip =? ip')) [
    | inl same ↦ rw same (unfold keys in (tt, tt))
    | inr apart ↦ rw apart (hs ip')
  ]),
)

pub put_back-IsTable :
    (ip : Text) (objects : DeviceProperties) (table : List (Text × DeviceProperties))
    → IsObjects objects
    → IsTable table
    → IsTable (put_back ip objects table)
unfolding put_back
put_back-IsTable ip [] table h hs = delete-IsTable ip table hs
put_back-IsTable ip (o ∷ objects) table h hs = insert-IsTable ip (o ∷ objects) table h hs

pub insert-IsObjects :
    (eoj : ℕ) (props : EpcPropertyMap) (objects : DeviceProperties)
    → eoj < 2 ^ 24
    → IsObjects objects
    → IsObjects (insert eoj props objects)
insert-IsObjects eoj props objects h (distinct, hs) =
    (insert-Distinct eoj props objects distinct, All-insert eoj props objects h hs)
