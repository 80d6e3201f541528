-- ===== src/Session/Decimal.antt =====
-- lib4d_sql/fourd_interne.c: how long the numbers are that `%d` writes.
use pdo_4d.Base.{
  ℕ, zero, suc, ◌+◌, ◌*◌, ◌/◌, ◌%◌, ◌-◌, ◌<◌, ◌≤◌, ◌^◌, arith, ltb, Bool-cases, inl, inr, signed32,
  length, length-append, [], ◌∷◌,
}
use pdo_4d.Session.Message.{decimal_from, decimal, format_d}

-- Powers of ten.
abbrev ten : ℕ → ℕ
ten zero = 1
ten (suc k) = 10 * ten k

length-decimal_from : (k fuel n : ℕ) → n < 10 * ten k → length (decimal_from fuel n) ≤ k + 1
length-decimal_from k zero n h = omega arith
length-decimal_from zero (suc fuel) n h = ground arith
length-decimal_from (suc k) (suc fuel) n h =
    let shorter : n / 10 < 10 * ten k = omega (arith, h) in
    ground (
      arith,
      length-decimal_from k fuel (n / 10) shorter,
      length-append (decimal_from fuel (n / 10)) ((b'0' + n % 10) ∷ []),
    )

length-decimal : (n : ℕ) → n < 10 ^ 10 → length (decimal n) ≤ 10
length-decimal n h = length-decimal_from 9 (suc n) n h

pub length-format_d : (w : ℕ) → w < 2 ^ 32 → length (format_d (signed32 w)) ≤ 11
length-format_d w h = elim (Bool-cases (ltb w (2 ^ 31))) [
  | inl e ↦ rw e (omega (arith, length-decimal w (omega (arith, h))))
  | inr e ↦ rw e (omega (arith, length-decimal (2 ^ 32 - w - 1 + 1) (omega (arith, h))))
]
