-- ===== src/EchonetLite/Object/Laws.antt =====
-- The parts of an object code, and its three bytes on the wire.
use echonet_list.Base.{ℕ, ◌+◌, ◌*◌, ◌/◌, ◌%◌, ◌^◌, ◌<◌, ◌≡◌, ap, ◌∙◌, arith, [], ◌∷◌, ok, ◌>>=◌}
use echonet_list.Base.Bits.{bit_or_disjoint}
use echonet_list.EchonetLite.Bytes.{uint32_to_bytes_loop, uint32_to_bytes, u32}
use echonet_list.EchonetLite.Bytes.Laws.{be, bytes_to_uint32-be}
use echonet_list.EchonetLite.Object.{class_code, instance_code, make_eoj, decode_eoj, encode_eoj}

make_eoj_sum : (c i : ℕ) → c < 65536 → i < 256 → make_eoj c i ≡ c * 256 + i
unfolding make_eoj
make_eoj_sum c i hc hi =
    let fits : c * 256 % u32 ≡ c * 256 = omega arith in rw fits (bit_or_disjoint 8 c i hi)

-- The two parts of an object code are found again in it.
make_eoj_parts :
    (c i : ℕ)
    → c < 65536
    → i < 256
    → (class_code (make_eoj c i) ≡ c) × (instance_code (make_eoj c i) ≡ i)
unfolding class_code instance_code
make_eoj_parts c i hc hi = omega (arith, make_eoj_sum c i hc hi)

-- A 24-bit object code is made of its parts.
pub make_eoj_of_parts : (e : ℕ) → e < 2 ^ 24 → make_eoj (class_code e) (instance_code e) ≡ e
unfolding class_code instance_code
make_eoj_of_parts e h =
    make_eoj_sum (e / 256 % 65536) (e % 256) (omega arith) (omega arith) ∙ omega arith

decode_eoj_three :
    {E : Type 0} (a b c : ℕ)
    → a < 256
    → b < 256
    → c < 256
    → decode_eoj {E = E} (a ∷ b ∷ c ∷ []) ≡ ok ((a * 256 + b) * 256 + c)
unfolding decode_eoj
decode_eoj_three {E} a b c ha hb hc =
    rw (bytes_to_uint32-be {E = E} (a ∷ b ∷ []) (omega arith) (omega arith) (ha, (hb, tt)))
      (ap (λ n. ok n) (ap (λ n. make_eoj n c) two ∙ make_eoj_sum (a * 256 + b) c (omega arith) hc))
  where
    two : be (a ∷ b ∷ []) % 65536 ≡ a * 256 + b
    two = unfold be in omega arith

-- An object code of 24 bits survives the trip to its three bytes and back.
pub decode_eoj-encode_eoj :
    {E : Type 0} (e : ℕ) → e < 2 ^ 24 → (encode_eoj e >>= decode_eoj {E = E}) ≡ ok e
unfolding encode_eoj uint32_to_bytes uint32_to_bytes_loop
decode_eoj-encode_eoj {E} e h =
    decode_eoj_three {E = E} (e / 2 ^ 16 % 256) (e / 2 ^ 8 % 256) (e / 2 ^ 0 % 256) (omega arith)
      (omega arith) (omega arith)
    ∙ ap (λ n. ok n) (omega arith)
