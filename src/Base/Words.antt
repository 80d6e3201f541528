-- ===== src/Base/Words.antt =====
-- Little-endian machine words, as the program's hosts store them.
use Prim.Native.Nat.{ℕ, zero, suc, ◌+◌, ◌*◌, ◌/◌, ◌%◌, ◌^◌, ◌<◌}
use mathlib.Core.Path.{◌≡◌, refl}
use mathlib.Core.List.{[], ◌∷◌}
use native.Mathlib.Omega.{arith}
use pdo_4d.Base.Lists.{length}
use pdo_4d.Base.CString.{Bytes}

-- The number that the bytes of a word stand for.
abbrev pub le_value : Bytes → ℕ
le_value [] = 0
le_value (b ∷ bs) = b + 256 * le_value bs

-- The `k` bytes of a word.
abbrev pub le_bytes : ℕ → ℕ → Bytes
le_bytes zero n = []
le_bytes (suc k) n = n % 256 ∷ le_bytes k (n / 256)

pub length-le_bytes : (k n : ℕ) → length (le_bytes k n) ≡ k
length-le_bytes zero n = refl
length-le_bytes (suc k) n = omega (arith, length-le_bytes k (n / 256))

pub le_value-le_bytes_four : (n : ℕ) → n < 2 ^ 32 → le_value (le_bytes 4 n) ≡ n
le_value-le_bytes_four n h = omega arith

pub le_value-le_bytes_eight : (n : ℕ) → n < 2 ^ 64 → le_value (le_bytes 8 n) ≡ n
le_value-le_bytes_eight n h = omega arith
