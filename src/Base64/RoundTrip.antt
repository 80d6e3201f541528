-- ===== src/Base64/RoundTrip.antt =====
-- Decoding undoes encoding, group by group.
use pdo_4d.Base.{
  ℕ, ◌<◌, ◌*◌, ◌+◌, ◌/◌, ◌%◌, bit_or, Bool, true, ◌≡◌, refl, ap, ◌∙◌, arith, [], ◌∷◌, ◌++◌, some,
  append_assoc, append-nil, ◌==◌, ==_iff, all_below, all_below_sound, Bytes, IsBytes, length,
}
use pdo_4d.Base64.{
  Decoder, encode_char, put, encode_loop, decode_loop, base64_encode, base64_decode_ex,
}
use pdo_4d.Base64.Tables.{digit, IsDigit}

-- `|` of the two parts of a byte, for the three ways in which a byte is split.
or4_table : all_below 256 (λ n. bit_or (n / 4 * 4) (n % 4) == n) ≡ true
unfolding all_below
or4_table = refl

or16_table : all_below 256 (λ n. bit_or (n / 16 * 16) (n % 16) == n) ≡ true
unfolding all_below
or16_table = refl

or64_table : all_below 256 (λ n. bit_or (n / 64 * 64) (n % 64) == n) ≡ true
unfolding all_below
or64_table = refl

or4 : (n : ℕ) → n < 256 → bit_or (n / 4 * 4) (n % 4) ≡ n
or4 n h = (==_iff _ n).0 (all_below_sound 256 _ n or4_table h)

or16 : (n : ℕ) → n < 256 → bit_or (n / 16 * 16) (n % 16) ≡ n
or16 n h = (==_iff _ n).0 (all_below_sound 256 _ n or16_table h)

or64 : (n : ℕ) → n < 256 → bit_or (n / 64 * 64) (n % 64) ≡ n
or64 n h = (==_iff _ n).0 (all_below_sound 256 _ n or64_table h)

decode-encode_char :
    (strict : Bool) (d : Decoder) (v : ℕ) (rest : Bytes)
    → v < 64
    → decode_loop strict d (encode_char v ∷ rest) ≡ decode_loop strict (put d v) rest
unfolding decode_loop
decode-encode_char strict d v rest h =
    let i : IsDigit v = digit v h in rw (i.not_nul, i.not_pad, i.reversed)

abbrev at : ℕ → Bytes → ℕ → Decoder
at p out cur = record { phase = p; out = out; cur = cur }

module _ (strict : Bool) (out rest : Bytes) where
  -- A digit of a group: the state changes as the switch on `i % 4` says.
  digit_step :
      (d e : Decoder) (v : ℕ)
      → v < 64
      → put d v ≡ e
      → decode_loop strict d (encode_char v ∷ rest) ≡ decode_loop strict e rest
  digit_step d e v h p =
      decode-encode_char strict d v rest h ∙ ap (λ x. decode_loop strict x rest) p

  first_digit :
      (cur a : ℕ)
      → a < 256
      → decode_loop strict (at 0 out cur) (encode_char (a / 4) ∷ rest)
        ≡ decode_loop strict (at 1 out (a / 4 * 4)) rest
  unfolding put
  first_digit cur a h =
      digit_step (at 0 out cur) _ (a / 4) (omega arith) (ap (at 1 out) (omega arith))

  second_digit :
      (a b v : ℕ)
      → a < 256
      → b < 16
      → v ≡ a % 4 * 16 + b
      → decode_loop strict (at 1 out (a / 4 * 4)) (encode_char v ∷ rest)
        ≡ decode_loop strict (at 2 (out ++ a ∷ []) (b * 16)) rest
  unfolding put
  second_digit a b v ha hb e =
      let q : v / 16 ≡ a % 4 = omega arith in
      let r : v % 16 * 16 % 256 ≡ b * 16 = omega arith in
      let m : a % 256 ≡ a = omega arith in
      digit_step (at 1 out (a / 4 * 4)) _ v (omega arith) (rw (q, r, or4 a ha, m))

  third_digit :
      (b c v : ℕ)
      → b < 256
      → c < 4
      → v ≡ b % 16 * 4 + c
      → decode_loop strict (at 2 out (b / 16 * 16)) (encode_char v ∷ rest)
        ≡ decode_loop strict (at 3 (out ++ b ∷ []) (c * 64)) rest
  unfolding put
  third_digit b c v hb hc e =
      let q : v / 4 ≡ b % 16 = omega arith in
      let r : v % 4 * 64 % 256 ≡ c * 64 = omega arith in
      let m : b % 256 ≡ b = omega arith in
      digit_step (at 2 out (b / 16 * 16)) _ v (omega arith) (rw (q, r, or16 b hb, m))

  fourth_digit :
      (c : ℕ)
      → c < 256
      → decode_loop strict (at 3 out (c / 64 * 64)) (encode_char (c % 64) ∷ rest)
        ≡ decode_loop strict (at 0 (out ++ c ∷ []) 0) rest
  unfolding put
  fourth_digit c hc =
      let m : c % 256 ≡ c = omega arith in
      digit_step (at 3 out (c / 64 * 64)) _ (c % 64) (omega arith) (rw (or64 c hc, m))

decode-encode_loop :
    (strict : Bool) (s out : Bytes) (cur : ℕ)
    → IsBytes s
    → decode_loop strict (at 0 out cur) (encode_loop s) ≡ some (out ++ s)
unfolding encode_loop
decode-encode_loop strict [] out cur h = rw append-nil (unfold decode_loop in refl)
decode-encode_loop strict (a ∷ []) out cur h =
    rw
      (
        first_digit strict out _ cur a h.0,
        second_digit strict out _ a 0 (a % 4 * 16) h.0 (omega arith) (omega arith),
      )
      (unfold decode_loop in refl)
decode-encode_loop strict (a ∷ b ∷ []) out cur h =
    rw
      (
        first_digit strict out _ cur a h.0,
        second_digit strict out _ a (b / 16) _ h.0 (omega arith) refl,
        third_digit strict (out ++ a ∷ []) _ b 0 (b % 16 * 4) h.1.0 (omega arith) (omega arith),
      )
      (unfold decode_loop in rw append_assoc)
decode-encode_loop strict (a ∷ b ∷ c ∷ rest) out cur h =
    rw
      (
        first_digit strict out _ cur a h.0,
        second_digit strict out _ a (b / 16) _ h.0 (omega arith) refl,
        third_digit strict (out ++ a ∷ []) _ b (c / 64) _ h.1.0 (omega arith) refl,
        fourth_digit strict ((out ++ a ∷ []) ++ b ∷ []) _ c h.1.1.0,
        decode-encode_loop strict rest (((out ++ a ∷ []) ++ b ∷ []) ++ c ∷ []) 0 h.1.1.1,
      )
      (simp append_assoc)

-- Encoding a byte string shorter than 1610612734, from where on the size of the output does not fit an `int`,
-- succeeds, and the decoder, strict or not, gives the string back.
pub base64_decode_ex-base64_encode :
    (strict : Bool) (s : Bytes)
    → IsBytes s
    → length s < 1610612734
    → (t : Bytes) × (base64_encode s ≡ some t) × (base64_decode_ex strict t ≡ some s)
unfolding base64_encode base64_decode_ex
base64_decode_ex-base64_encode strict s h short =
    (encode_loop s, ground arith, decode-encode_loop strict s [] 0 h)

-- The decoder, strict or not, takes back whatever the encoder returned.
pub base64_decode_ex-some :
    (strict : Bool) (s : Bytes) {t : Bytes}
    → IsBytes s
    → base64_encode s ≡ some t
    → base64_decode_ex strict t ≡ some s
unfolding base64_encode base64_decode_ex
base64_decode_ex-some strict s h e = ground (arith, decode-encode_loop strict s [] 0 h)
