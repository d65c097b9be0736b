-- ===== src/EchonetLite/Message/Framing.antt =====
-- Which packets `ParseECHONETLiteMessage` can read without leaving the slice.
use echonet_list.Base.{
  ℕ, zero, suc, ◌+◌, ◌%◌, ◌≤◌, ◌<◌, ◌≡◌, ◌≢◌, ◌↔◌, refl, sym, ◌∙◌, arith, true, false, List, [],
  ◌∷◌, some, length, take, drop, get_elem?, get_elem?-some, get_elem?-none, Result, ok, err, panic,
  or_panic, ◌>>=◌, Ensures, Ensures-bind, Bool-cases, ltb, ltb→lt, ◌==◌, inl, inr,
}
use echonet_list.EchonetLite.Esv.{is_set_get}
use echonet_list.EchonetLite.Bytes.{bytes_to_uint32, bytes_to_uint32_loop}
use echonet_list.EchonetLite.Object.{decode_eoj, make_eoj}
use echonet_list.EchonetLite.Property.{Property}
use echonet_list.EchonetLite.Message.{
  ParseError, short_packet, read_edt, parse_properties_loop, parse_properties, second_list, Message,
  parse_message, decode_u16,
}

or_panic-Ensures :
    (packet : List ℕ) (i : ℕ)
    → i < length packet
    → Ensures {E = ParseError} (λ _. Unit {0}) (or_panic (get_elem? packet i))
or_panic-Ensures packet i h = let (x, e) = get_elem?-some packet i h in rw e tt

read_edt-Ensures :
    (packet : List ℕ) (pos pdc : ℕ)
    → pos ≤ length packet
    → Ensures (λ r. r.1 ≤ length packet) (read_edt packet pos pdc)
unfolding read_edt
read_edt-Ensures packet pos pdc h = elim (Bool-cases (pdc == 0)) [
  | inl z ↦ rw z h
  | inr nz ↦ elim (Bool-cases (ltb (length packet) (pos + pdc))) [
    | inl over ↦ rw (nz, over) tt
    | inr fits ↦ rw (nz, fits) (ground arith)
  ]
]

-- The loop stays within the packet, and stops within it.
parse_properties_loop-Ensures :
    (n : ℕ) (packet : List ℕ) (pos : ℕ)
    → pos ≤ length packet
    → Ensures (λ r. r.0 ≤ length packet) (parse_properties_loop n packet pos)
unfolding parse_properties_loop
parse_properties_loop-Ensures zero packet pos h = h
parse_properties_loop-Ensures (suc n) packet pos h =
    elim (Bool-cases (ltb (length packet) (pos + 2))) [
      | inl over ↦ rw over tt
      | inr fits ↦ rw fits (
          Ensures-bind (λ _. Unit {0}) (λ r. r.0 ≤ length packet) (or_panic (get_elem? packet pos))
            _ (or_panic-Ensures packet pos (ground arith))
            λ epc _.
              Ensures-bind (λ _. Unit {0}) (λ r. r.0 ≤ length packet)
                (or_panic (get_elem? packet (pos + 1))) _
                (or_panic-Ensures packet (pos + 1) (ground arith))
                λ pdc _.
                  Ensures-bind (λ r. r.1 ≤ length packet) (λ r. r.0 ≤ length packet)
                    (read_edt packet (pos + 2) pdc) _
                    (read_edt-Ensures packet (pos + 2) pdc (ground arith))
                    λ r hr.
                      Ensures-bind (λ q. q.0 ≤ length packet) (λ q. q.0 ≤ length packet)
                        (parse_properties_loop n packet r.1) _
                        (parse_properties_loop-Ensures n packet r.1 hr) λ q hq. hq)
    ]

parse_properties-Ensures :
    (packet : List ℕ) (pos : ℕ)
    → pos < length packet
    → Ensures (λ r. r.0 ≤ length packet) (parse_properties packet pos)
unfolding parse_properties
parse_properties-Ensures packet pos h =
    Ensures-bind (λ _. Unit {0}) (λ r. r.0 ≤ length packet) (or_panic (get_elem? packet pos)) _
      (or_panic-Ensures packet pos h) λ opc _. parse_properties_loop-Ensures opc packet (pos + 1) h'
  where
    h' : pos + 1 ≤ length packet
    h' = omega arith

decode_u16_ok : (b : List ℕ) → (n : ℕ) × (decode_u16 b ≡ ok n)
unfolding decode_u16 bytes_to_uint32
decode_u16_ok [] = (0, refl)
decode_u16_ok (x ∷ []) = (0, refl)
decode_u16_ok (x ∷ y ∷ []) = (bytes_to_uint32_loop 0 (x ∷ y ∷ []) % 65536, refl)
decode_u16_ok (x ∷ y ∷ z ∷ r) = (0, ground arith)

decode_eoj_ok : (b : List ℕ) → (n : ℕ) × (decode_eoj {E = ParseError} b ≡ ok n)
unfolding decode_eoj bytes_to_uint32
decode_eoj_ok (x ∷ y ∷ z ∷ []) = (make_eoj (bytes_to_uint32_loop 0 (x ∷ y ∷ []) % 65536) z, refl)
decode_eoj_ok [] = (0, refl)
decode_eoj_ok (x ∷ []) = (0, refl)
decode_eoj_ok (x ∷ y ∷ []) = (0, refl)
decode_eoj_ok (x ∷ y ∷ z ∷ w ∷ r) = (0, refl)

-- What is left to do when the twelve bytes of the header are there.
abbrev Tail : (List Property → List Property → Message) → ℕ → List ℕ → Result ParseError Message
Tail make esv packet =
    parse_properties packet 11 >>= λ r. second_list esv packet r.0 >>= λ more. ok (make r.1 more)

parse_message_long :
    (packet : List ℕ)
    → 12 ≤ length packet
    → (make : List Property → List Property → Message) × (esv : ℕ) × (get_elem? packet 10
        ≡ some esv)
      × (parse_message packet ≡ Tail make esv packet)
unfolding parse_message
parse_message_long packet h =
    let long : ltb (length packet) 12 ≡ false = ground arith in
    let (ehd, e1) = decode_u16_ok (take 2 packet) in
    let (tid, e2) = decode_u16_ok (take 2 (drop 2 packet)) in
    let (seoj, e3) = decode_eoj_ok (take 3 (drop 4 packet)) in
    let (deoj, e4) = decode_eoj_ok (take 3 (drop 7 packet)) in
    let (esv, e5) = get_elem?-some packet 10 (omega arith) in
    (
      λ ps more. record {
        ehd = ehd;
        tid = tid;
        seoj = seoj;
        deoj = deoj;
        esv = esv;
        properties = ps;
        set_get_properties = more;
      },
      esv,
      e5,
      rw (long, e1, e2, e3, e4, e5) refl,
    )

second_list-panic :
    (esv : ℕ) (packet : List ℕ) (pos : ℕ) (f : List Property → Message)
    → pos ≤ length packet
    → (second_list esv packet pos >>= λ more. ok (f more)) ≡ panic
    → (is_set_get esv ≡ true) × (pos ≡ length packet)
unfolding second_list
second_list-panic esv packet pos f h e = elim (Bool-cases (is_set_get esv)) [
  | inr other ↦ cc (rw other at e)
  | inl both ↦ (
    both,
    elim (Bool-cases (ltb pos (length packet))) [
      | inl inside ↦ absurd (
          not_panic (parse_properties packet pos)
            (parse_properties-Ensures packet pos (ltb→lt pos (length packet) inside))
            (rw both at e))
      | inr outside ↦ ground arith
    ],
  )
]
  where
    not_panic :
        (r : Result ParseError (ℕ × List Property))
        → Ensures (λ q. q.0 ≤ length packet) r
        → (r >>= (λ q. ok q.1) >>= λ more. ok (f more)) ≡ panic
        → ⊥
    not_panic (ok q) k p = cc
    not_panic (err x) k p = cc
    not_panic panic k p = k

Tail-panic :
    (make : List Property → List Property → Message) (esv : ℕ) (packet : List ℕ)
    → 12 ≤ length packet
    → Tail make esv packet ≡ panic
    → (is_set_get esv ≡ true)
      × (ps : List Property) × (parse_properties packet 11 ≡ ok (length packet, ps))
Tail-panic make esv packet h e =
    go (parse_properties packet 11) (parse_properties-Ensures packet 11 (omega arith)) e
  where
    go :
        (r : Result ParseError (ℕ × List Property))
        → Ensures (λ q. q.0 ≤ length packet) r
        → (r >>= λ q. second_list esv packet q.0 >>= λ more. ok (make q.1 more)) ≡ panic
        → (is_set_get esv ≡ true) × (ps : List Property) × (r ≡ ok (length packet, ps))
    go (ok (pos, ps)) k p =
        let (both, last) = second_list-panic esv packet pos (make ps) k p in (both, ps, rw last)
    go (err x) k p = cc
    go panic k p = absurd k

-- A read of a property list at the end of the packet.
pub parse_properties_end : (packet : List ℕ) → parse_properties packet (length packet) ≡ panic
unfolding parse_properties
parse_properties_end packet = rw (get_elem?-none packet (length packet) (omega arith))

parse_message_short :
    (packet : List ℕ) → ltb (length packet) 12 ≡ true → parse_message packet ≡ err short_packet
unfolding parse_message
parse_message_short packet h = rw h

some_inj : {a b : ℕ} → some a ≡ some b → a ≡ b
some_inj h = cc

-- `ParseECHONETLiteMessage` panics on a packet exactly when the packet is at least twelve bytes long,
-- its service is one of the three SetGet services, and its first property list fills it to the end.
pub parse_message-panic_iff :
    (packet : List ℕ)
    → (parse_message packet ≡ panic) ↔ (
        (12 ≤ length packet)
        × (esv : ℕ) × (get_elem? packet 10 ≡ some esv)
        × (is_set_get esv ≡ true)
        × (ps : List Property) × (parse_properties packet 11 ≡ ok (length packet, ps)))
parse_message-panic_iff packet = (
  λ e. elim (Bool-cases (ltb (length packet) 12)) [
    | inl short ↦ cc (parse_message_short packet short)
    | inr long ↦
        let h : 12 ≤ length packet = ground arith in
        let (make, esv, e10, tail) = parse_message_long packet h in
        let (both, ps, first) = Tail-panic make esv packet h (sym tail ∙ e) in
        (h, esv, e10, both, ps, first)
  ],
  λ (h, esv, e10, both, ps, first).
      let (make, esv', e10', tail) = parse_message_long packet h in
      let same : esv' ≡ esv = some_inj (sym e10' ∙ e10) in
      tail ∙ unfold second_list in rw (first, same, both, parse_properties_end packet),
)

-- A packet of any other service is answered by a message or an error, whatever its bytes are.
parse_message_total :
    (packet : List ℕ) (esv : ℕ)
    → get_elem? packet 10 ≡ some esv
    → is_set_get esv ≡ false
    → parse_message packet ≢ panic
parse_message_total packet esv e10 other e =
    let (h, esv', e10', both, ps, first) = (parse_message-panic_iff packet).0 e in
    let same : esv' ≡ esv = some_inj (sym e10' ∙ e10) in cc
