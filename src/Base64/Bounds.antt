-- ===== src/Base64/Bounds.antt =====
-- The buffers that the two functions allocate are large enough.
use pdo_4d.Base.{
  ℕ, ◌+◌, ◌*◌, ◌/◌, ◌<◌, List, if◌then◌else◌, ◌≡◌, refl, arith, [], ◌∷◌, some, ◌==◌, Bytes, length,
}
use pdo_4d.Base64.{Decoder, encode_loop, base64_encode}

length-encode_loop : (s : Bytes) → length (encode_loop s) ≡ (length s + 2) / 3 * 4
unfolding encode_loop
length-encode_loop [] = refl
length-encode_loop (a ∷ []) = refl
length-encode_loop (a ∷ b ∷ []) = refl
length-encode_loop (a ∷ b ∷ c ∷ rest) = omega (arith, length-encode_loop rest)

-- Whenever the encoder succeeds, its output has exactly `(length + 2) / 3 * 4` bytes, the size allocated for it less the NUL.
pub length-base64_encode :
    (s : Bytes) {t : Bytes} → base64_encode s ≡ some t → length t ≡ (length s + 2) / 3 * 4
unfolding base64_encode
length-base64_encode s h = ground (arith, length-encode_loop s)

-- All places are inside of a buffer of `n + 1` bytes.
abbrev pub AllWithin : ℕ → List ℕ → Type 0
AllWithin n [] = Unit
AllWithin n (i ∷ is) = (i < n + 1) × AllWithin n is

-- How many places of the result have been begun.
abbrev begun : Decoder → ℕ
begun d = length d.out + (if d.phase == 0 then 0 else 1)
