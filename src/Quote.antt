-- ===== src/Quote.antt =====
-- 4d_driver.c: `fourd_handle_quoter`, which makes a text literal of SQL.
pub mod Literal
use pdo_4d.Base.{
  ℕ, zero, suc, ◌+◌, ◌-◌, Bool, true, false, Option, none, some, List, [], ◌∷◌, ◌++◌, ◌^◌, leb,
  Outcome, ok, fault, ◌==◌, if◌then◌else◌, Bytes, codes, cstr, take, length, replicate,
}

-- strchr: the text up to the first `d`, this one included, and what follows it. The search ends at a NUL.
unfoldable pub strchr : ℕ → Bytes → Option (Bytes × Bytes)
strchr d [] = none
strchr d (c ∷ cs) = elim (c == d) [
  | true ↦ some (c ∷ [], cs)
  | false ↦ elim (c == 0) [
    | true ↦ none
    | false ↦ elim (strchr d cs) [ none ↦ none | some cut ↦ some (c ∷ cut.0, cut.1) ]
  ]
]

-- strncpy(c, l, n): a short text is followed by NULs.
abbrev pub strncpy : ℕ → Bytes → Bytes
strncpy n l = take n (cstr l ++ replicate n 0)

-- Every round of the two loops takes a byte at least, so the length of the text is enough fuel.
unfoldable pub count_quotes : ℕ → Bytes → ℕ
count_quotes zero cu = 0
count_quotes (suc fuel) cu = elim (strchr b'\'' cu) [
  | none ↦ 0
  | some cut ↦ suc (count_quotes fuel cut.1)
]

-- What the loop over the chunks writes, and where `l` stands behind it. A chunk holds no NUL.
unfoldable pub copy_chunks : ℕ → Bytes → Bytes × Bytes
copy_chunks zero l = ([], l)
copy_chunks (suc fuel) l = elim (strchr b'\'' l) [
  | none ↦ ([], l)
  | some cut ↦ (cut.0 ++ (b'\'' ∷ (copy_chunks fuel cut.1).0), (copy_chunks fuel cut.1).1)
]

-- `*quoted` and `*quotedlen`.
pub record Quoted : Type 0 where
  pub text : Bytes
  pub size : ℕ

-- The lengths are of type `int`: a size that is none is undefined.
unfoldable pub fourd_handle_quoter : Bytes → Outcome Quoted
unfolding count_quotes copy_chunks
fourd_handle_quoter unquoted =
    if length unquoted == 0
    then ok (record { text = codes "''"; size = 2 })
    else let fuel = suc (length unquoted) in
      let size = length unquoted + count_quotes fuel unquoted + 2 in
      let copied = copy_chunks fuel unquoted in
      let written = b'\'' ∷ copied.0 in
      if leb (2 ^ 31) size
      then fault
      else ok (record {
        text = written ++ (strncpy (size - length written - 1) copied.1 ++ b'\'' ∷ []);
        size = size;
      })
