-- ===== src/Base64/Tables.antt =====
-- The two tables are inverse: checked for each of the 64 digits.
use pdo_4d.Base.{
  ℕ, ◌<◌, Bool, true, false, not, ◌&&◌, ◌≡◌, refl, arith, ◌==◌, all_below, all_below_sound,
}
use pdo_4d.Base64.{Entry, sep, bad, val, base64_pad, encode_char, reverse}

abbrev is_digit : Entry → ℕ → Bool
is_digit (val w) v = w == v
is_digit sep v = false
is_digit bad v = false

abbrev digit_ok : ℕ → Bool
digit_ok v =
    is_digit (reverse (encode_char v)) v
    && (not (encode_char v == 0) && not (encode_char v == base64_pad))

digits_table : all_below 64 digit_ok ≡ true
unfolding all_below reverse encode_char
digits_table = refl

is_digit_eq : (e : Entry) (v : ℕ) → is_digit e v ≡ true → e ≡ val v
is_digit_eq (val w) v h = ground arith
is_digit_eq sep v h = ground arith
is_digit_eq bad v h = ground arith

pub record IsDigit (v : ℕ) : Type 0 where
  pub reversed : reverse (encode_char v) ≡ val v
  pub not_nul : (encode_char v == 0) ≡ false
  pub not_pad : (encode_char v == base64_pad) ≡ false

-- The reverse table takes each digit back, and no digit is NUL or `=`.
pub digit : (v : ℕ) → v < 64 → IsDigit v
digit v h =
    let t = all_below_sound 64 digit_ok v digits_table h in
    record {
      reversed = is_digit_eq _ v (ground arith);
      not_nul = ground arith;
      not_pad = ground arith;
    }
