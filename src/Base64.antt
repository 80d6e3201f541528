-- ===== src/Base64.antt =====
-- lib4d_sql/base64.c: the two tables, the encoder and the decoder.
-- `x & (2 ^ k - 1)` is `x % 2 ^ k`, `x >> k` is `x / 2 ^ k` and `x << k` is `x * 2 ^ k`; `|` is `bit_or`.
-- Allocation does not fail.
pub mod Tables
pub mod RoundTrip
pub mod Bounds
use pdo_4d.Base.{
  ℕ, zero, suc, replicate, ◌+◌, ◌-◌, ◌*◌, ◌/◌, ◌%◌, ◌^◌, bit_or, Bool, true, false, not, ◌&&◌, ◌||◌,
  Option, none, some, List, [], ◌∷◌, ◌++◌, leb, ◌==◌, if◌then◌else◌, Bytes, codes, length, get_or,
}

-- base64_table, its closing NUL left off
abbrev pub base64_table : Bytes
base64_table = codes "ABCDEFGHIJKLMNOPQRSTUVWXYZabcdefghijklmnopqrstuvwxyz0123456789+/"

abbrev pub base64_pad : ℕ
base64_pad = b'='

-- An entry of base64_reverse_table: -1 for a separator, -2 for any other foreign byte.
pub data Entry : Type 0 where
  sep bad : Entry
  val : ℕ → Entry

-- `n` values in a row.
abbrev values : ℕ → ℕ → List Entry
values v zero = []
values v (suc n) = val v ∷ values (v + 1) n

-- The table by its runs: the white space 9, 10, 13 and 32, then `+`, `/`, the digits and the letters.
abbrev base64_reverse_table : List Entry
base64_reverse_table =
    replicate 9 bad
    ++ (sep
        ∷ sep
        ∷ bad
        ∷ bad
        ∷ sep
        ∷ (replicate 18 bad
            ++ (sep
                ∷ (replicate 10 bad
                    ++ (val 62
                        ∷ bad
                        ∷ bad
                        ∷ bad
                        ∷ val 63
                        ∷ (values 52 10
                            ++ (replicate 7 bad
                                ++ (values 0 26
                                    ++ (replicate 6 bad
                                        ++ (values 26 26 ++ replicate 133 bad))))))))))

unfoldable pub encode_char : ℕ → ℕ
encode_char v = get_or base64_table v 0

unfoldable pub reverse : ℕ → Entry
reverse c = get_or base64_reverse_table c bad

-- The loop over groups of three bytes, and the tail of one or two.
unfoldable pub encode_loop : Bytes → Bytes
encode_loop [] = []
encode_loop (a ∷ []) = encode_char (a / 4) ∷ encode_char (a % 4 * 16) ∷ base64_pad ∷ base64_pad ∷ []
encode_loop (a ∷ b ∷ []) =
    encode_char (a / 4)
    ∷ encode_char (a % 4 * 16 + b / 16)
    ∷ encode_char (b % 16 * 4)
    ∷ base64_pad
    ∷ []
encode_loop (a ∷ b ∷ c ∷ rest) =
    encode_char (a / 4)
    ∷ encode_char (a % 4 * 16 + b / 16)
    ∷ encode_char (b % 16 * 4 + c / 64)
    ∷ encode_char (c % 64)
    ∷ encode_loop rest

-- `none` where no string is given. `length` is an `int`: from 1610612734 on the size that is allocated, `(length + 2) / 3 * 4 + 1`, overflows, and
-- for the two largest lengths `length + 2` does, where NULL is returned.
unfoldable pub base64_encode : Bytes → Option Bytes
base64_encode s = if leb 1610612734 (length s) then none else some (encode_loop s)

-- The position in a group (`i % 4`), the bytes before `result[j]`, and `result[j]`.
pub record Decoder : Type 0 where
  pub phase : ℕ
  pub out : Bytes
  pub cur : ℕ

abbrev u8 : ℕ → ℕ
u8 n = n % 256

-- The switch on `i % 4`, and `i++`.
unfoldable pub put : Decoder → ℕ → Decoder
put d ch =
    if d.phase == 0
    then record d { phase = 1; cur = u8 (ch * 4) }
    else if d.phase == 1
    then record {
      phase = 2;
      out = d.out ++ (u8 (bit_or d.cur (ch / 16)) ∷ []);
      cur = u8 (ch % 16 * 16);
    }
    else if d.phase == 2
    then record {
      phase = 3;
      out = d.out ++ (u8 (bit_or d.cur (ch / 4)) ∷ []);
      cur = u8 (ch % 4 * 64);
    }
    else record { phase = 0; out = d.out ++ (u8 (bit_or d.cur ch) ∷ []); cur = 0 }

-- At `=`: one digit alone in the last group is refused.
abbrev finish_pad : Decoder → Option Bytes
finish_pad d = if d.phase == 1 then none else some d.out

-- The loop over the bytes of the string. Without `strict` every byte that is no digit is skipped.
unfoldable pub decode_loop : Bool → Decoder → Bytes → Option Bytes
decode_loop strict d [] = some d.out
decode_loop strict d (c ∷ cs) =
    if c == 0 then some d.out else if c == base64_pad then finish_pad d else elim (reverse c) [
      | val v ↦ decode_loop strict (put d v) cs
      | sep ↦ decode_loop strict d cs
      | bad ↦ elim strict [ true ↦ none | false ↦ decode_loop strict d cs ]
    ]

abbrev pub start : Decoder
start = record { phase = 0; out = []; cur = 0 }

unfoldable pub base64_decode_ex : Bool → Bytes → Option Bytes
base64_decode_ex strict s = decode_loop strict start s

unfoldable pub base64_decode : Bytes → Option Bytes
base64_decode s = base64_decode_ex false s

-- The places of `result` that a round writes, the one ahead included.
abbrev pub round_writes : Decoder → List ℕ
round_writes d =
    if d.phase == 0
    then length d.out ∷ []
    else if d.phase == 3
    then length d.out ∷ []
    else length d.out ∷ ((length d.out + 1) ∷ [])

-- The places that are written at `=`, and the closing NUL.
abbrev pub pad_writes : Decoder → List ℕ
pad_writes d =
    if d.phase == 1
    then []
    else if d.phase == 2
    then (length d.out + 1) ∷ (length d.out ∷ [])
    else if d.phase == 3
    then length d.out ∷ (length d.out ∷ [])
    else length d.out ∷ []

-- All places that the decoder writes on its way, whether it succeeds or not.
unfoldable pub decode_writes : Bool → Decoder → Bytes → List ℕ
decode_writes strict d [] = length d.out ∷ []
decode_writes strict d (c ∷ cs) =
    if c == 0
    then length d.out ∷ []
    else if c == base64_pad
    then pad_writes d
    else elim (reverse c) [
      | val v ↦ round_writes d ++ decode_writes strict (put d v) cs
      | sep ↦ decode_writes strict d cs
      | bad ↦ elim strict [ true ↦ [] | false ↦ decode_writes strict d cs ]
    ]
