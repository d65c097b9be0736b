-- ===== src/Tests/Wire.antt =====
-- The formats on the wire, at concrete messages and properties.
use echonet_list.Base.{
  ℕ, ◌%◌, ◌<◌, ◌≤◌, ◌≡◌, ◌↔◌, refl, arith, true, List, [], ◌∷◌, map, none, some, ok, panic, ◌>>=◌,
  length, get_elem?, ◌/◌, ◌⊎◌,
}
use echonet_list.Base.Int.{pos, ◌+ℤ◌}
use echonet_list.EchonetLite.Descriptions.{
  NumberDesc, get_edt_len, in_range, from_int, to_int, StringDesc, from_string, to_string,
}
use echonet_list.EchonetLite.Descriptions.Numbers.{to_int-from_int}
use echonet_list.EchonetLite.Descriptions.Texts.{to_string-from_string}
use echonet_list.EchonetLite.Esv
use echonet_list.EchonetLite.Esv.{is_set_get}
use echonet_list.EchonetLite.Property.{Property}
use echonet_list.EchonetLite.PropertyMap.{decode_map, encode_map, has_epc}
use echonet_list.EchonetLite.PropertyMap.RoundTrip.{decode_map-encode_map}
use echonet_list.EchonetLite.Message.{
  Message, parse_message, encode_message, parse_properties, parse_properties_loop,
}
use echonet_list.EchonetLite.Message.Framing.{parse_message-panic_iff}
use echonet_list.EchonetLite.Message.RoundTrip.{
  received, header, IsSendable, parse_message-encode_message, parse_message-encode_message_set_get,
}
use echonet_list.EchonetLite.NodeProfile.{class_list_edt, decode_self_node_class_list_s}
use echonet_list.EchonetLite.NodeProfile.Laws.{decode_self_node_class_list_s-class_list_edt}

abbrev status : Property
status = record { epc = 0x80; edt = some (0x30 ∷ []) }

abbrev no_data : Property
no_data = record { epc = 0x88; edt = none }

abbrev message : ℕ → Message
message e = record {
  ehd = 0;
  tid = 7;
  seoj = 0x05ff01;
  deoj = 0x013001;
  esv = e;
  properties = status ∷ no_data ∷ [];
  set_get_properties = [];
}

message-IsSendable : (e : ℕ) → IsSendable (message e)
message-IsSendable e = record {
  ehd_fits = omega arith;
  tid_fits = omega arith;
  seoj_fits = omega arith;
  deoj_fits = omega arith;
  count_fits = omega arith;
  edts_fit = (omega arith, (omega arith, tt));
}

parse_message-encode_message_example :
    (encode_message (message Esv.set_c) >>= parse_message)
    ≡ ok (record (message Esv.set_c) {
      ehd = header (message Esv.set_c);
      properties = map received (status ∷ no_data ∷ []);
      set_get_properties = [];
    })
unfolding is_set_get
parse_message-encode_message_example =
    parse_message-encode_message (message Esv.set_c) (message-IsSendable Esv.set_c) refl

parse_message-encode_message_set_get_example :
    (encode_message (message Esv.set_get) >>= parse_message) ≡ panic
unfolding is_set_get
parse_message-encode_message_set_get_example =
    parse_message-encode_message_set_get (message Esv.set_get) (message-IsSendable Esv.set_get) refl

-- A SetGet packet that ends after an empty first list.
abbrev cut_packet : List ℕ
cut_packet = 0x10 ∷ 0x81 ∷ 0 ∷ 7 ∷ 0x05 ∷ 0xff ∷ 0x01 ∷ 0x0e ∷ 0xf0 ∷ 0x01 ∷ 0x6e ∷ 0 ∷ []

parse_message-panic_iff_example : (parse_message cut_packet ≡ panic) ↔ (
    (12 ≤ length cut_packet)
    × (esv : ℕ) × (get_elem? cut_packet 10 ≡ some esv)
    × (is_set_get esv ≡ true)
    × (ps : List Property) × (parse_properties cut_packet 11 ≡ ok (length cut_packet, ps)))
parse_message-panic_iff_example = parse_message-panic_iff cut_packet

-- The panic itself.
cut_packet-panic : parse_message cut_packet ≡ panic
unfolding is_set_get parse_properties parse_properties_loop
cut_packet-panic = (parse_message-panic_iff cut_packet).1 (omega arith, 0x6e, refl, refl, [], refl)

abbrev epcs : List ℕ
epcs = 0x80 ∷ 0x81 ∷ 0xff ∷ []

decode_map-encode_map_example :
    (m' : List ℕ) × (decode_map (encode_map epcs) ≡ some m')
    × ((x : ℕ) → x < 256 → has_epc x m' ≡ has_epc x epcs)
decode_map-encode_map_example =
    decode_map-encode_map epcs
      ((omega arith, omega arith), ((omega arith, omega arith), ((omega arith, omega arith), tt)))
      (omega arith)

abbrev two_classes : List ℕ
two_classes = 0x0130 ∷ 0x0291 ∷ []

decode_self_node_class_list_s-class_list_edt_example :
    (class_list_edt two_classes >>= decode_self_node_class_list_s {E = Unit {0}})
    ≡ ok (some (map (λ c. c / 256 % 256) two_classes))
decode_self_node_class_list_s-class_list_edt_example =
    decode_self_node_class_list_s-class_list_edt {E = Unit {0}} two_classes (omega arith)

-- A percentage, as one byte.
abbrev percent : NumberDesc
percent = record { min = pos 0; max = pos 100; offset = pos 0; unit = []; edt_len = 0 }

to_int-from_int_example :
    (edt : List ℕ) × (length edt ≡ get_edt_len percent)
    × (from_int {E = Unit {0}} percent (pos 42) ≡ ok (some edt))
    × (to_int {E = Unit {0}} percent edt ≡ ok (some (pos 42)))
unfolding get_edt_len in_range ◌+ℤ◌
to_int-from_int_example =
    to_int-from_int percent (pos 42) 42 (omega arith, omega arith) (omega arith, omega arith)
      (omega arith, omega arith) refl refl refl (omega arith) (omega arith) (omega arith)
      (omega arith)

abbrev name_desc : StringDesc
name_desc = record { min_edt_len = 4; max_edt_len = 8 }

to_string-from_string_example :
    (4 ≤ length {A = ℕ} (65 ∷ 66 ∷ 0 ∷ 0 ∷ []))
    × ((name_desc.max_edt_len ≡ 0)
        ⊎ ((length {A = ℕ} (65 ∷ 66 ∷ 0 ∷ 0 ∷ []) ≤ 8)
            ⊎ (length {A = ℕ} (65 ∷ 66 ∷ 0 ∷ 0 ∷ []) ≡ 4)))
    × (to_string name_desc (65 ∷ 66 ∷ 0 ∷ 0 ∷ []) ≡ 65 ∷ 66 ∷ [])
unfolding from_string
to_string-from_string_example =
    to_string-from_string name_desc (65 ∷ 66 ∷ []) (65 ∷ 66 ∷ 0 ∷ 0 ∷ [])
      (λ h. omega arith, (λ h. omega arith, tt)) refl
