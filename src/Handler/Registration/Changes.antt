-- ===== src/Handler/Registration/Changes.antt =====
-- Which registrations are reported as changes.
use echonet_list.Base.{
  ℕ, ◌≡◌, refl, ap, ◌∙◌, arith, true, false, ◌&&◌, List, [], ◌∷◌, Option, none, some, All, ◌==◌,
  if◌then◌else◌,
}
use echonet_list.Base.Keys.{Text, ◌=?◌, nat_eq, text_eq}
use echonet_list.Base.Maps.{contains, Distinct, =?_refl}
use echonet_list.EchonetLite.Property.{Property, edt_bytes}
use echonet_list.Handler.Identifiers.{Device}
use echonet_list.Handler.LocalObjects.Writes.{last_write}
use echonet_list.Handler.Session.{epcs_of}
use echonet_list.Handler.Devices.{Devices, get_property, register_properties}
use echonet_list.Handler.Devices.Properties.{always, get_property-register_properties}
use echonet_list.Handler.Registration.{change_of, changed_properties}

last_write-absent :
    (epc : ℕ) (ps : List Property) (old : Option Property)
    → contains (epcs_of ps) epc ≡ false
    → last_write always epc ps old ≡ old
unfolding epcs_of
last_write-absent epc [] old h = refl
last_write-absent epc (p ∷ ps) old h =
    let other : (p.epc == epc) ≡ false = ground arith in
    rw other (last_write-absent epc ps old (ground arith))

-- Of codes that come once, each is stored as it was written.
settled :
    (ps : List Property) (old : ℕ → Option Property)
    → Distinct (epcs_of ps)
    → All (λ p. last_write always p.epc ps (old p.epc) ≡ some p) ps
unfolding epcs_of
settled [] old h = tt
settled (p ∷ ps) old (hp, h) = (
  ap (last_write always p.epc ps) (ground arith) ∙ last_write-absent p.epc ps (some p) hp,
  settled ps (λ epc. if p.epc == epc && always p.epc then some p else old epc) h,
)

no_change :
    (edt_string : ℕ → Property → Text) (device : Device) (d : Devices) (p : Property)
    → get_property device p.epc d ≡ some p
    → change_of edt_string device d p ≡ none
unfolding change_of
no_change edt_string device d p h =
    let same : (edt_bytes p.edt =? edt_bytes p.edt) ≡ true = =?_refl (edt_bytes p.edt) in
    rw (change_of, h) (rw same refl)

unchanged :
    (edt_string : ℕ → Property → Text) (device : Device) (d : Devices) (ps : List Property)
    → All (λ p. get_property device p.epc d ≡ some p) ps
    → changed_properties edt_string device d ps ≡ []
unfolding changed_properties
unchanged edt_string device d [] h = refl
unchanged edt_string device d (p ∷ ps) (hp, h) =
    rw (changed_properties, no_change edt_string device d p hp) (unchanged edt_string device d ps h)

-- A second registration of the same properties, whose codes come once each, reports no change.
pub changed_properties-register_properties :
    (edt_string : ℕ → Property → Text) (device : Device) (ps : List Property) (now : ℕ)
    (d : Devices)
    → Distinct (epcs_of ps)
    → changed_properties edt_string device (register_properties device ps now d) ps ≡ []
changed_properties-register_properties edt_string device ps now d distinct =
    unchanged edt_string device (register_properties device ps now d) ps
      (stored ps (settled ps (λ epc. get_property device epc d) distinct))
  where
    stored :
        (qs : List Property)
        → All (λ p. last_write always p.epc ps (get_property device p.epc d) ≡ some p) qs
        → All (λ p. get_property device p.epc (register_properties device ps now d) ≡ some p) qs
    stored [] h = tt
    stored (q ∷ qs) (hq, h) = (
      get_property-register_properties device device ps now q.epc d
          ∙ rw (=?_refl device.ip, =?_refl device.eoj) hq,
      stored qs h,
    )
