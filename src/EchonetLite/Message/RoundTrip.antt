-- ===== src/EchonetLite/Message/RoundTrip.antt =====
-- Reading back what `ECHONETLiteMessage.Encode` wrote.
use echonet_list.Base.{
  ℕ, suc, ◌+◌, ◌%◌, ◌^◌, ◌≤◌, ◌<◌, ◌≡◌, refl, ap, ◌∙◌, arith, true, false, List, [], ◌∷◌, ◌++◌,
  Option, none, some, length, length-append, take, drop, drop-append, take-append_length, get_elem?,
  get_elem?-append, All, map, ok, panic, ◌>>=◌, ◌==◌, ltb, if◌then◌else◌,
}
use echonet_list.EchonetLite.Bytes.{uint32_to_bytes, uint32_to_bytes_loop, flatten_bytes}
use echonet_list.EchonetLite.Bytes.Laws.{bytes_to_uint32-uint32_to_bytes_loop}
use echonet_list.EchonetLite.Object.Laws.{decode_eoj-encode_eoj}
use echonet_list.EchonetLite.Message.Framing.{parse_properties_end}
use echonet_list.EchonetLite.Esv.{is_set_get}
use echonet_list.EchonetLite.Object.{decode_eoj, encode_eoj}
use echonet_list.EchonetLite.Property.{Property, edt_bytes, encode_property, encode_properties}
use echonet_list.EchonetLite.Message.{
  ParseError, Message, ehd_echonet_lite, read_edt, parse_properties_loop, parse_properties,
  decode_u16, second_list, parse_message, encode_message,
}
use mathlib.Core.List.{append-nil, append_assoc}

-- What a reader finds where `p` was written: an empty EDT comes back as nil.
abbrev pub received_edt : List ℕ → Option (List ℕ)
received_edt [] = none
received_edt (b ∷ bs) = some (b ∷ bs)

abbrev pub received : Property → Property
received p = record { epc = p.epc; edt = received_edt (edt_bytes p.edt) }

-- The EDT's length fits its count byte.
abbrev pub Fits : Property → Type 0
Fits p = length (edt_bytes p.edt) < 256

read_edt-drop :
    (packet : List ℕ) (pos : ℕ) (edt tail : List ℕ)
    → drop pos packet ≡ edt ++ tail
    → pos + length edt ≤ length packet
    → read_edt packet pos (length edt) ≡ ok (received_edt edt, pos + length edt)
unfolding read_edt
read_edt-drop packet pos [] tail e h = ap (λ q. ok (none, q)) (omega arith)
read_edt-drop packet pos (b ∷ bs) tail e h =
    let fits : ltb (length packet) (pos + suc (length bs)) ≡ false = ground arith in
    let more : (suc (length bs) == 0) ≡ false = ground arith in
    rw (more, fits, e, take-append_length (b ∷ bs) tail) refl

loop_step :
    (n : ℕ) (packet : List ℕ) (pos epc pdc pos' : ℕ) (edt : Option (List ℕ))
    → ltb (length packet) (pos + 2) ≡ false
    → get_elem? packet pos ≡ some epc
    → get_elem? packet (pos + 1) ≡ some pdc
    → read_edt packet (pos + 2) pdc ≡ ok (edt, pos')
    → parse_properties_loop (suc n) packet pos ≡ (
        parse_properties_loop n packet pos' >>= λ r.
        ok (r.0, record { epc = epc; edt = edt } ∷ r.1))
unfolding parse_properties_loop
loop_step n packet pos epc pdc pos' edt h1 h2 h3 h4 = rw (h1, h2, h3, h4) refl

length-encode_property : (p : Property) → length (encode_property p) ≡ 2 + length (edt_bytes p.edt)
unfolding encode_property
length-encode_property p = omega arith

parse_properties_step :
    (n : ℕ) (pre tail : List ℕ) (p : Property)
    → Fits p
    → parse_properties_loop (suc n) (pre ++ (encode_property p ++ tail)) (length pre) ≡ (
        parse_properties_loop n
          (pre ++ (encode_property p ++ tail))
          (length (pre ++ encode_property p))
        >>= λ r. ok (r.0, received p ∷ r.1))
parse_properties_step n pre tail p h =
    let edt : List ℕ = edt_bytes p.edt in
    let packet : List ℕ = pre ++ (encode_property p ++ tail) in
    let size : length packet ≡ length pre + (2 + length edt + length tail) = omega (
      arith,
      length-append pre (encode_property p ++ tail),
      length-append (encode_property p) tail,
      length-encode_property p,
    ) in
    let here : length pre ≡ length pre + 0 = omega arith in
    let behind : length (pre ++ encode_property p) ≡ length pre + 2 + length edt =
      omega (arith, length-append pre (encode_property p), length-encode_property p) in
    let pdc : length edt % 256 ≡ length edt = omega arith in
    rw behind (
      loop_step n packet (length pre) p.epc (length edt) _ (received_edt edt) (ground (arith, size))
        (ap (get_elem? packet) here
          ∙ get_elem?-append pre (encode_property p ++ tail) 0
          ∙ unfold encode_property in refl)
        (get_elem?-append pre (encode_property p ++ tail) 1 ∙ unfold encode_property in ap some pdc)
        (read_edt-drop packet (length pre + 2) edt tail
          (drop-append pre (encode_property p ++ tail) 2 ∙ unfold encode_property in refl)
          (omega (arith, size))))

body : List Property → List ℕ
body ps = flatten_bytes (map encode_property ps)

parse_properties_loop-body :
    (ps : List Property) (pre : List ℕ)
    → All Fits ps
    → parse_properties_loop (length ps) (pre ++ body ps) (length pre)
      ≡ ok (length (pre ++ body ps), map received ps)
unfolding body flatten_bytes
parse_properties_loop-body [] pre h = rw append-nil (unfold parse_properties_loop in refl)
parse_properties_loop-body (p ∷ ps) pre (hp, h) =
    parse_properties_step (length ps) pre (body ps) p hp
    ∙ rw (← append_assoc pre (encode_property p) (body ps))
        (rw (parse_properties_loop-body ps (pre ++ encode_property p) h) refl)

pub record IsSendable (m : Message) : Type 0 where
  pub ehd_fits : m.ehd < 65536
  pub tid_fits : m.tid < 65536
  pub seoj_fits : m.seoj < 2 ^ 24
  pub deoj_fits : m.deoj < 2 ^ 24
  pub count_fits : length m.properties < 256
  pub edts_fit : All Fits m.properties

abbrev pub header : Message → ℕ
header m = if m.ehd == 0 then ehd_echonet_lite else m.ehd

-- The bytes of a message: eleven of the header, the count, and the properties.
packet : Message → List ℕ
packet m =
    uint32_to_bytes_loop (header m) 2
    ++ (uint32_to_bytes_loop m.tid 2
        ++ (uint32_to_bytes_loop m.seoj 3
            ++ (uint32_to_bytes_loop m.deoj 3
                ++ (m.esv ∷ (length m.properties % 256) ∷ body m.properties))))

encode_message-packet : (m : Message) → encode_message m ≡ ok (packet m)
unfolding encode_message packet uint32_to_bytes encode_eoj flatten_bytes encode_properties body
    uint32_to_bytes_loop
encode_message-packet m = ap (λ b. ok b) (rw append-nil refl)

decode_u16-bytes : (n : ℕ) → n < 65536 → decode_u16 (uint32_to_bytes_loop n 2) ≡ ok n
unfolding decode_u16 uint32_to_bytes_loop
decode_u16-bytes n h =
    ap (λ r. r >>= λ k. ok (k % 65536))
      (bytes_to_uint32-uint32_to_bytes_loop {E = ParseError} n 2 (omega arith) (omega arith))
    ∙ ap (λ k. ok k) (omega arith)

decode_eoj-bytes :
    (e : ℕ) → e < 2 ^ 24 → decode_eoj {E = ParseError} (uint32_to_bytes_loop e 3) ≡ ok e
decode_eoj-bytes e h =
    unfold encode_eoj uint32_to_bytes in decode_eoj-encode_eoj {E = ParseError} e h

parse_parts :
    (octets : List ℕ) (m : Message) (ps : List Property) (last : ℕ)
    → ltb (length octets) 12 ≡ false
    → decode_u16 (take 2 octets) ≡ ok m.ehd
    → decode_u16 (take 2 (drop 2 octets)) ≡ ok m.tid
    → decode_eoj {E = ParseError} (take 3 (drop 4 octets)) ≡ ok m.seoj
    → decode_eoj {E = ParseError} (take 3 (drop 7 octets)) ≡ ok m.deoj
    → get_elem? octets 10 ≡ some m.esv
    → parse_properties octets 11 ≡ ok (last, ps)
    → parse_message octets ≡ (
        second_list m.esv octets last >>= λ more.
        ok (record m { properties = ps; set_get_properties = more }))
unfolding parse_message
parse_parts octets m ps last h1 h2 h3 h4 h5 h6 h7 = rw (h1, h2, h3, h4, h5, h6, h7) refl

parse_properties-packet :
    (m : Message)
    → length m.properties < 256
    → All Fits m.properties
    → parse_properties (packet m) 11 ≡ ok (length (packet m), map received m.properties)
unfolding parse_properties packet uint32_to_bytes_loop
parse_properties-packet m hc hf =
    let count : length m.properties % 256 ≡ length m.properties = omega arith in
    let before : List ℕ =
      uint32_to_bytes_loop (header m) 2
      ++ (uint32_to_bytes_loop m.tid 2
          ++ (uint32_to_bytes_loop m.seoj 3
              ++ (uint32_to_bytes_loop m.deoj 3 ++ (m.esv ∷ length m.properties ∷ [])))) in
    rw count (parse_properties_loop-body m.properties before hf)

parse_packet :
    (m : Message)
    → IsSendable m
    → parse_message (packet m) ≡ (
        second_list m.esv (packet m) (length (packet m)) >>= λ more. ok (record m {
          ehd = header m;
          properties = map received m.properties;
          set_get_properties = more;
        }))
parse_packet m s =
    parse_parts (packet m) (record m { ehd = header m }) (map received m.properties)
      (length (packet m)) (unfold packet uint32_to_bytes_loop in ground arith)
      (unfold packet uint32_to_bytes_loop in decode_u16-bytes (header m) (ground arith))
      (unfold packet uint32_to_bytes_loop in decode_u16-bytes m.tid s.tid_fits)
      (unfold packet uint32_to_bytes_loop in decode_eoj-bytes m.seoj s.seoj_fits)
      (unfold packet uint32_to_bytes_loop in decode_eoj-bytes m.deoj s.deoj_fits)
      (unfold packet uint32_to_bytes_loop in refl)
      (parse_properties-packet m s.count_fits s.edts_fit)

-- A message of any service but the SetGet ones, whose parts fit their fields, is read back from its
-- encoding: the header is the protocol's own if it was 0, an empty EDT is nil, and the second list,
-- which is not written, is empty.
pub parse_message-encode_message :
    (m : Message)
    → IsSendable m
    → is_set_get m.esv ≡ false
    → (encode_message m >>= parse_message)
      ≡ ok (record m {
        ehd = header m;
        properties = map received m.properties;
        set_get_properties = [];
      })
parse_message-encode_message m s other =
    rw (encode_message-packet m) (parse_packet m s ∙ unfold second_list in rw other refl)

-- A SetGet message whose parts fit their fields, and whose second list the encoder leaves out,
-- makes its reader panic.
pub parse_message-encode_message_set_get :
    (m : Message)
    → IsSendable m
    → is_set_get m.esv ≡ true
    → (encode_message m >>= parse_message) ≡ panic
parse_message-encode_message_set_get m s both =
    rw (encode_message-packet m)
      (parse_packet m s ∙ unfold second_list in rw (both, parse_properties_end (packet m)) refl)
