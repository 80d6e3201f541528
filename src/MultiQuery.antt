-- ===== src/MultiQuery.antt =====
-- lib4d_sql/fourd_interne.c, `_is_multi_query`: the scan that refuses a request of two statements.
pub mod Context
pub mod Laws
use pdo_4d.Base.{
  ℕ, ◌+◌, Bool, true, false, not, ◌&&◌, Option, none, some, List, [], ◌∷◌, ltb, leb, ◌==◌,
  if◌then◌else◌, Bytes, length, take, ◌%◌, ◌^◌,
}

-- The three flags of the scan.
pub record Scan : Type 0 where
  pub in_col : Bool
  pub in_str : Bool
  pub fin_first : Bool

-- One round of the loop: `return 1`, or the flags for the next round.
pub data Round : Type 0 where
  stop : Round
  go : Scan → Round

-- `case ']'` outside a string
abbrev close_bracket : ℕ → ℕ → Scan → Scan
close_bracket i prev s =
    if s.in_col
    then record s { in_col = false }
    else if ltb 1 i
    then record s { in_col = prev == b']' }
    else s

-- The switch on character `car` at index `i`, with `prev` before it.
unfoldable pub switch : ℕ → ℕ → Scan → ℕ → Round
switch i prev s car =
    if car == b'['
    then go (if s.in_str then s else record s { in_col = true })
    else if car == b']'
    then go (if s.in_str then s else close_bracket i prev s)
    else if car == b'\''
    then go (if s.in_col then s else record s { in_str = not s.in_str })
    else if car == b';'
    then go (if not s.in_col && not s.in_str then record s { fin_first = true } else s)
    else if s.in_col
    then go s
    else if s.in_str
    then go s
    else if car == b' '
    then go s
    else if s.fin_first
    then stop
    else go s

-- The loop from index `i`.
unfoldable pub scan : ℕ → ℕ → Scan → Bytes → Bool
scan i prev s [] = false
scan i prev s (car ∷ rest) = elim (switch i prev s car) [
  | stop ↦ true
  | go s' ↦ scan (i + 1) car s' rest
]

abbrev pub initial : Scan
initial = record { in_col = false; in_str = false; fin_first = false }

-- The first `len` characters; `len` is an `int` that `strlen` is converted to.
abbrev scan_int : ℕ → Bytes → Bool
scan_int len request =
    if ltb len 1
    then false
    else if leb (2 ^ 31) len
    then false
    else scan 0 0 initial (take len request)

-- `none` is the null pointer.
unfoldable pub is_multi_query : Option Bytes → Bool
is_multi_query none = false
is_multi_query (some request) = scan_int (length request % 2 ^ 32) request
