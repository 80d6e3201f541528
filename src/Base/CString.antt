-- ===== src/Base/CString.antt =====
-- C strings: a string is the list of its bytes before the terminating NUL.
use Prim.Native.Nat.{ℕ, ◌+◌, ◌-◌, ◌*◌, ◌^◌, ◌<◌, min}
use Prim.Native.Char.{code}
use Prim.Native.String.{String}
use mathlib.Core.Path.{◌≡◌, refl}
use mathlib.Core.Logic.{◌↔◌, ◌≢◌}
use mathlib.Core.Bool.{Bool, true, false, ◌&&◌, ◌||◌}
use mathlib.Core.List.{List, [], ◌∷◌, ◌++◌}
use mathlib.Core.Option.{Option, none, some}
use native.Mathlib.Omega.{arith}
use pdo_4d.Base.Tests.{leb, ◌==◌, if◌then◌else◌}
use pdo_4d.Base.Lists.{take}
use pdo_4d.Base.Int.{ℤ, pos, negsuc, sub_ℕ, signed32, to_unsigned}

abbrev pub Bytes : Type 0
Bytes = List ℕ

-- The bytes of an ASCII literal.
abbrev pub codes : String → Bytes
codes String.[] = []
codes (String.◌∷◌ c s) = code c ∷ codes s

-- Every element is a byte.
abbrev pub IsBytes : Bytes → Type 0
IsBytes [] = Unit
IsBytes (c ∷ cs) = (c < 256) × IsBytes cs

-- strcmp(s, t) == 0
abbrev pub equal : Bytes → Bytes → Bool
equal [] [] = true
equal (c ∷ s) (d ∷ t) = c == d && equal s t
equal _ _ = false

pub equal_iff : (a b : Bytes) → (equal a b ≡ true) ↔ (a ≡ b)
equal_iff (x ∷ a) (y ∷ b) = ground (arith, equal_iff a b)
equal_iff _ _ = ground arith

-- What the C library reads of a buffer: the bytes before the first NUL.
abbrev pub cstr : Bytes → Bytes
cstr [] = []
cstr (c ∷ cs) = if c == 0 then [] else c ∷ cstr cs

-- Whether `p` is a prefix of `s`.
abbrev pub starts_with : Bytes → Bytes → Bool
starts_with [] s = true
starts_with (x ∷ p) [] = false
starts_with (x ∷ p) (y ∷ s) = x == y && starts_with p s

-- strstr: the text from the first occurrence of `p` on.
abbrev pub strstr : Bytes → Bytes → Option Bytes
strstr [] p = if starts_with p [] then some [] else none
strstr (c ∷ cs) p = if starts_with p (c ∷ cs) then some (c ∷ cs) else strstr cs p

-- No occurrence of `p` in `before ++ rest` begins inside `before`.
abbrev pub NotBefore : Bytes → Bytes → Bytes → Type 0
NotBefore p [] rest = Unit
NotBefore p (c ∷ before) rest =
    (starts_with p (c ∷ (before ++ rest)) ≡ false) × NotBefore p before rest

-- A byte that does not occur in the text.
abbrev pub Absent : ℕ → Bytes → Type 0
Absent d [] = Unit
Absent d (c ∷ cs) = (c ≢ d) × Absent d cs

pub starts_with-append : (p s : Bytes) → starts_with p (p ++ s) ≡ true
starts_with-append [] s = refl
starts_with-append (x ∷ p) s = ground (arith, starts_with-append p s)

pub strstr-append :
    (before p rest : Bytes)
    → NotBefore p before (p ++ rest)
    → strstr (before ++ (p ++ rest)) p ≡ some (p ++ rest)
strstr-append [] [] [] h = refl
strstr-append [] [] (r ∷ rest) h = refl
strstr-append [] (x ∷ p) rest h = rw (starts_with-append (x ∷ p) rest)
strstr-append (c ∷ before) p rest h = rw (h.0) (strstr-append before p rest h.1)

pub NotBefore-Absent :
    (d : ℕ) (before rest : Bytes) → Absent d before → NotBefore (d ∷ []) before rest
NotBefore-Absent d [] rest h = tt
NotBefore-Absent d (c ∷ before) rest h = (ground (arith, h.0), NotBefore-Absent d before rest h.1)

-- vsnprintf(buff, size, "%s", s): at most `size - 1` bytes are written.
abbrev pub snprintf : ℕ → Bytes → Bytes
snprintf size s = take (size - 1) s

-- strtok over a whole string: the longest runs without `d`, the empty ones left out.
abbrev pub emit : Bytes → List Bytes → List Bytes
emit [] rest = rest
emit (c ∷ run) rest = (c ∷ run) ∷ rest

abbrev pub tokens_from : ℕ → Bytes → Bytes → List Bytes
tokens_from d run [] = emit run []
tokens_from d run (c ∷ cs) = elim (c == d) [
  | true ↦ emit run (tokens_from d [] cs)
  | false ↦ tokens_from d (run ++ c ∷ []) cs
]

abbrev pub tokens : ℕ → Bytes → List Bytes
tokens d s = tokens_from d [] s

-- strtol: white space, a sign, and digits.
abbrev pub is_digit : ℕ → Bool
is_digit c = leb b'0' c && leb c b'9'

abbrev pub digits_value : ℕ → Bytes → ℕ
digits_value acc [] = acc
digits_value acc (c ∷ cs) = if is_digit c then digits_value (acc * 10 + (c - b'0')) cs else acc

abbrev pub signed_value : Bytes → ℤ
signed_value [] = pos 0
signed_value (c ∷ cs) =
    if c == b'-'
    then sub_ℕ 0 (digits_value 0 cs)
    else if c == b'+'
    then pos (digits_value 0 cs)
    else pos (digits_value 0 (c ∷ cs))

abbrev pub is_space : ℕ → Bool
is_space c = c == b' ' || (leb b'\t' c && leb c b'\r')

abbrev pub parsed : Bytes → ℤ
parsed [] = pos 0
parsed (c ∷ cs) = if is_space c then parsed cs else signed_value (c ∷ cs)

-- A `long` has 64 bits.
abbrev pub saturated : ℤ → ℤ
saturated (pos n) = pos (min n (2 ^ 63 - 1))
saturated (negsuc n) = negsuc (min n (2 ^ 63 - 1))

-- (int) strtol(s, NULL, 10)
abbrev pub atoi : Bytes → ℤ
atoi s = signed32 (to_unsigned (2 ^ 32) (saturated (parsed s)))
