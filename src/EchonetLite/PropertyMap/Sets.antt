-- ===== src/EchonetLite/PropertyMap/Sets.antt =====
-- Membership after each operation on a property map.
use echonet_list.Base.{ℕ, ◌≡◌, refl, ◌∙◌, arith, Bool, not, ◌&&◌, ◌||◌, List, [], ◌∷◌, ◌==◌}
use echonet_list.Base.Keys.{nat_eq}
use echonet_list.Base.Maps.{contains}
use echonet_list.EchonetLite.PropertyMap.{has_epc, set_epc, delete_epc, collect}

pub has_epc-set_epc :
    (x epc : ℕ) (m : List ℕ) → has_epc x (set_epc epc m) ≡ (epc == x || has_epc x m)
unfolding has_epc set_epc
has_epc-set_epc x epc m = ground arith

has_epc-delete_epc :
    (x epc : ℕ) (m : List ℕ) → has_epc x (delete_epc epc m) ≡ (not (epc == x) && has_epc x m)
unfolding has_epc delete_epc
has_epc-delete_epc x epc [] = ground arith
has_epc-delete_epc x epc (y ∷ m) = ground (arith, has_epc-delete_epc x epc m)

pub has_epc-collect :
    (x : ℕ) (bs m : List ℕ) → has_epc x (collect bs m) ≡ (has_epc x bs || has_epc x m)
unfolding collect
has_epc-collect x [] m = unfold has_epc in refl
has_epc-collect x (b ∷ bs) m =
    has_epc-collect x bs (set_epc b m)
    ∙ rw (has_epc-set_epc x b m) (unfold has_epc in or_swap (contains bs x) (b == x) (contains m x))
  where
    or_swap : (p q r : Bool) → (p || (q || r)) ≡ ((q || p) || r)
    or_swap p q r = ground arith
