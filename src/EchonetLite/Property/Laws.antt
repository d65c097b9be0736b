-- ===== src/EchonetLite/Property/Laws.antt =====
-- Lookup after update in a property list.
use echonet_list.Base.{ℕ, ◌≡◌, refl, arith, List, [], ◌∷◌, some, ◌==◌, if◌then◌else◌}
use echonet_list.EchonetLite.Property.{Property, find_epc, update_property}

-- After an update the code finds the new property, and every other code what it found before.
find_epc-update_property :
    (epc : ℕ) (p : Property) (ps : List Property)
    → find_epc epc (update_property ps p) ≡ (if p.epc == epc then some p else find_epc epc ps)
unfolding find_epc update_property
find_epc-update_property epc p [] = refl
find_epc-update_property epc p (q ∷ ps) = ground (arith, find_epc-update_property epc p ps)
