-- ===== src/EchonetLite/Message.antt =====
-- Messages: echonet_lite/echonet_lite.go.
pub mod Framing
pub mod RoundTrip
use echonet_list.Base.{
  ℕ, zero, suc, ◌+◌, ◌%◌, Bool, true, false, ◌||◌, List, [], ◌∷◌, Option, none, some, length, take,
  drop, get_elem?, Result, ok, err, panic, or_panic, ◌>>=◌, ◌==◌, ltb, if◌then◌else◌,
}
use echonet_list.EchonetLite.Bytes.{uint32_to_bytes, bytes_to_uint32, flatten_bytes}
use echonet_list.EchonetLite.Esv.{is_set_get, is_response}
use echonet_list.EchonetLite.Object.{decode_eoj, encode_eoj}
use echonet_list.EchonetLite.Property.{Property, encode_properties}

-- `properties` and `set_get_properties` hold the two lists; nil and the empty list are not told apart.
pub record Message : Type 0 where
  pub ehd : ℕ
  pub tid : ℕ
  pub seoj : ℕ
  pub deoj : ℕ
  pub esv : ℕ
  pub properties : List Property
  pub set_get_properties : List Property

abbrev pub ehd_echonet_lite : ℕ
ehd_echonet_lite = 0x1081

-- `parseProperties` fails with one of the first two, `ParseECHONETLiteMessage` with the third too.
pub data ParseError : Type 0 where
  bad_property_length bad_edt_length short_packet : ParseError

-- The EDT of one property, whose bytes begin at `pos`, and the position behind it.
unfoldable pub read_edt : List ℕ → ℕ → ℕ → Result ParseError (Option (List ℕ) × ℕ)
read_edt packet pos pdc =
    if pdc == 0
    then ok (none, pos)
    else if ltb (length packet) (pos + pdc)
    then err bad_edt_length
    else ok (some (take pdc (drop pos packet)), pos + pdc)

-- The loop of `parseProperties`, with the number of rounds left.
unfoldable pub parse_properties_loop : ℕ → List ℕ → ℕ → Result ParseError (ℕ × List Property)
parse_properties_loop zero packet pos = ok (pos, [])
parse_properties_loop (suc n) packet pos =
    if ltb (length packet) (pos + 2) then err bad_property_length else do
      epc ← or_panic (get_elem? packet pos)
      pdc ← or_panic (get_elem? packet (pos + 1))
      (edt, pos') ← read_edt packet (pos + 2) pdc
      (last, ps) ← parse_properties_loop n packet pos'
      ok (last, record { epc = epc; edt = edt } ∷ ps)

-- `OPC := data[pos]` panics at the end of the packet.
unfoldable pub parse_properties : List ℕ → ℕ → Result ParseError (ℕ × List Property)
parse_properties packet pos = do
  opc ← or_panic (get_elem? packet pos)
  parse_properties_loop opc packet (pos + 1)

-- `DecodeEHD` and `DecodeTID`: 0 unless there are two bytes.
unfoldable pub decode_u16 : List ℕ → Result ParseError ℕ
decode_u16 b = if length b == 2 then bytes_to_uint32 b >>= (λ n. ok (n % 65536)) else ok 0

-- The Get list of a SetGet message.
unfoldable pub second_list : ℕ → List ℕ → ℕ → Result ParseError (List Property)
second_list esv packet pos =
    if is_set_get esv then parse_properties packet pos >>= (λ r. ok r.1) else ok []

unfoldable pub parse_message : List ℕ → Result ParseError Message
parse_message packet = if ltb (length packet) 12 then err short_packet else do
  ehd ← decode_u16 (take 2 packet)
  tid ← decode_u16 (take 2 (drop 2 packet))
  seoj ← decode_eoj (take 3 (drop 4 packet))
  deoj ← decode_eoj (take 3 (drop 7 packet))
  esv ← or_panic (get_elem? packet 10)
  (pos, ps) ← parse_properties packet 11
  more ← second_list esv packet pos
  ok (record {
    ehd = ehd;
    tid = tid;
    seoj = seoj;
    deoj = deoj;
    esv = esv;
    properties = ps;
    set_get_properties = more;
  })

-- `ECHONETLiteMessage.Encode`: a zero header stands for the protocol's own.
unfoldable pub encode_message : Message → Result ParseError (List ℕ)
encode_message m = do
  ehd ← uint32_to_bytes (if m.ehd == 0 then ehd_echonet_lite else m.ehd) 2
  tid ← uint32_to_bytes m.tid 2
  seoj ← encode_eoj m.seoj
  deoj ← encode_eoj m.deoj
  ok (flatten_bytes (ehd ∷ tid ∷ seoj ∷ deoj ∷ (m.esv ∷ []) ∷ encode_properties m.properties ∷ []))

-- `ECHONETLiteMessage.EOJ`: the object a message is about.
unfoldable pub message_eoj : Message → ℕ
message_eoj m = if is_response m.esv then m.seoj else m.deoj
