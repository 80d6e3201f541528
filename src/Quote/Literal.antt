-- ===== src/Quote/Literal.antt =====
-- The literals that `fourd_handle_quoter` makes, and how SQL reads them.
use pdo_4d.Base.{
  ℕ, zero, suc, ◌+◌, ◌-◌, ◌*◌, ◌^◌, ◌<◌, ◌≤◌, leb, lt→leb, ok, ◌≡◌, ◌⊎◌, inl, inr, refl, sym, ap,
  ◌∙◌, ap₂, arith, true, false, Option, none, some, [], ◌∷◌, ◌++◌, ◌==◌, if◌then◌else◌, Bytes, cstr,
  Absent, take, length, length-append, take-append, replicate, append_assoc, Bool-cases, ==_iff,
}
use pdo_4d.Quote.{Quoted, strchr, strncpy, count_quotes, copy_chunks, fourd_handle_quoter}

-- Every quote twice.
unfoldable double : Bytes → Bytes
double [] = []
double (c ∷ cs) = if c == b'\'' then b'\'' ∷ b'\'' ∷ double cs else c ∷ double cs

abbrev onto : ℕ → Option (Bytes × Bytes) → Option (Bytes × Bytes)
onto c none = none
onto c (some r) = some (c ∷ r.0, r.1)

-- A literal in SQL behind its first quote: two quotes stand for one, and one quote ends it. The value and
-- what follows.
unfoldable pub read_body : Bytes → Option (Bytes × Bytes)
read_body [] = none
read_body (c ∷ []) = if c == b'\'' then some ([], []) else none
read_body (c ∷ d ∷ cs) = elim (c == b'\'') [
  | true ↦ elim (d == b'\'') [ true ↦ onto b'\'' (read_body cs) | false ↦ some ([], d ∷ cs) ]
  | false ↦ onto c (read_body (d ∷ cs))
]

unfoldable pub read_literal : Bytes → Option (Bytes × Bytes)
unfolding read_body
read_literal [] = none
read_literal (c ∷ cs) = if c == b'\'' then read_body cs else none

record Cut (l : Bytes) : Type 0 where
  chunk : Bytes
  rest : Bytes
  found : strchr b'\'' l ≡ some (chunk, rest)
  shorter : length chunk + length rest ≡ length l
  some_byte : 0 < length chunk
  no_nul : Absent 0 rest
  doubled : double l ≡ chunk ++ (b'\'' ∷ double rest)

strchr_cases : (l : Bytes) → Absent 0 l → ((strchr b'\'' l ≡ none) × (double l ≡ l)) ⊎ Cut l
unfolding strchr double
strchr_cases [] a = inl (refl, refl)
strchr_cases (c ∷ cs) a = elim (Bool-cases (c == b'\'')) [
  | inl q ↦
      let e : c ≡ b'\'' = (==_iff c b'\'').0 q in
      inr (record {
        chunk = c ∷ [];
        rest = cs;
        found = rw (q, strchr);
        shorter = omega arith;
        some_byte = omega arith;
        no_nul = a.1;
        doubled = rw (q, double) (rw e);
      })
  | inr q ↦
      let z : (c == 0) ≡ false = ground (arith, a.0) in
      elim (strchr_cases cs a.1) [
        | inl none_here ↦
            inl (rw (q, z, none_here.0, strchr), rw (q, double) (ap (◌∷◌ c) none_here.1))
        | inr k ↦ inr (record {
          chunk = c ∷ k.chunk;
          rest = k.rest;
          found = rw (q, z, k.found, strchr);
          shorter = omega (arith, k.shorter);
          some_byte = omega arith;
          no_nul = k.no_nul;
          doubled = rw (q, double) (ap (◌∷◌ c) k.doubled);
        })
      ]
]

cstr-Absent : (l : Bytes) → Absent 0 l → cstr l ≡ l
cstr-Absent [] a = refl
cstr-Absent (c ∷ l) a =
    let z : (c == 0) ≡ false = ground (arith, a.0) in rw z (ap (◌∷◌ c) (cstr-Absent l a.1))

-- What the loops do: the doubled text, with the remainder at its end, and its size.
record Loops (fuel : ℕ) (l : Bytes) : Type 0 where
  text : double l ≡ (copy_chunks fuel l).0 ++ (copy_chunks fuel l).1
  no_nul : Absent 0 ((copy_chunks fuel l).1)
  size : length (double l) ≡ length l + count_quotes fuel l

copied : (fuel : ℕ) (l : Bytes) → Absent 0 l → length l < fuel → Loops fuel l
unfolding copy_chunks count_quotes
copied zero l a h = absurd (omega arith)
copied (suc fuel) l a h = elim (strchr_cases l a) [
  | inl n ↦ record {
    text = rw (n.0, copy_chunks) n.1;
    no_nul = rw (n.0, copy_chunks) a;
    size = rw (n.0, count_quotes) (omega (arith, ap length n.1));
  }
  | inr k ↦
      let later = copied fuel k.rest k.no_nul (omega (arith, k.shorter, k.some_byte)) in
      record {
        text =
            rw (k.found, copy_chunks)
              (k.doubled
                ∙ rw later.text (
                    sym (
                      append_assoc k.chunk (b'\'' ∷ (copy_chunks fuel k.rest).0)
                        ((copy_chunks fuel k.rest).1))));
        no_nul = rw (k.found, copy_chunks) later.no_nul;
        size =
            rw (k.found, count_quotes)
              (omega (
                arith,
                ap length k.doubled,
                length-append k.chunk (b'\'' ∷ double k.rest),
                later.size,
                k.shorter,
              ));
      }
]

length-double : (l : Bytes) → length (double l) ≤ 2 * length l
unfolding double
length-double [] = omega arith
length-double (c ∷ cs) = ground (arith, length-double cs)

strncpy_whole : (n : ℕ) (l : Bytes) → Absent 0 l → n ≡ length l → strncpy n l ≡ l
strncpy_whole n l a e = rw (cstr-Absent l a) (take-append l (replicate n 0) n e)

suc-is_not_zero : (n : ℕ) → (suc n == 0) ≡ false
suc-is_not_zero n = ground arith

abbrev quoted : Bytes → Quoted
quoted l = record { text = b'\'' ∷ (double l ++ b'\'' ∷ []); size = length (double l) + 2 }

quoter_loops :
    (l : Bytes) → Absent 0 l → 2 * length l + 2 < 2 ^ 31 → fourd_handle_quoter l ≡ ok (quoted l)
unfolding fourd_handle_quoter double
quoter_loops [] a small = refl
quoter_loops (c ∷ cs) a small =
    let l : Bytes = c ∷ cs in
    let fuel : ℕ = suc (length l) in
    let d = copied fuel l a (omega arith) in
    let w : Bytes = (copy_chunks fuel l).0 in
    let r : Bytes = (copy_chunks fuel l).1 in
    let size : length l + count_quotes fuel l + 2 ≡ length (double l) + 2 = omega (arith, d.size) in
    let room : length (double l) + 2 - length (b'\'' ∷ w) - 1 ≡ length r =
      omega (arith, ap length d.text, length-append w r) in
    let tail : strncpy (length l + count_quotes fuel l + 2 - length (b'\'' ∷ w) - 1) r ≡ r =
      rw size (strncpy_whole (length (double l) + 2 - length (b'\'' ∷ w) - 1) r d.no_nul room) in
    let text : w ++ (r ++ b'\'' ∷ []) ≡ double l ++ b'\'' ∷ [] =
      sym (append_assoc w r (b'\'' ∷ [])) ∙ ap (λ x. x ++ b'\'' ∷ []) (sym d.text) in
    let fits : leb (2 ^ 31) (length l + count_quotes fuel l + 2) ≡ false =
      lt→leb (length l + count_quotes fuel l + 2) (2 ^ 31)
        (omega (arith, size, length-double l, small)) in
    let some_bytes : (suc (length cs) == 0) ≡ false = suc-is_not_zero (length cs) in
    rw (some_bytes, fits)
      (ap (λ (q : Bytes × ℕ). ok (record { text = q.0; size = q.1 }))
        {x = (
          b'\''
              ∷ (w
                  ++ (strncpy (length l + count_quotes fuel l + 2 - length (b'\'' ∷ w) - 1) r
                      ++ b'\'' ∷ [])),
          length l + count_quotes fuel l + 2,
        )}
        {y = (b'\'' ∷ (double l ++ b'\'' ∷ []), length (double l) + 2)}
        (ap₂ (λ x n. (b'\'' ∷ x, n)) (ap (λ x. w ++ (x ++ b'\'' ∷ [])) tail ∙ text) size))

-- For a text without a NUL, of a length whose double, with two quotes more, fits an `int`, `*quotedlen` is the number of bytes written, and so the
-- buffer, of one byte more, also holds the closing NUL.
pub length-fourd_handle_quoter :
    (l : Bytes)
    → Absent 0 l
    → 2 * length l + 2 < 2 ^ 31
    → (q : Quoted) × (fourd_handle_quoter l ≡ ok q) × (length q.text ≡ q.size)
length-fourd_handle_quoter l a small =
    (quoted l, quoter_loops l a small, omega (arith, length-append (double l) (b'\'' ∷ [])))

read_body_plain :
    (c : ℕ) (xs : Bytes)
    → (c == b'\'') ≡ false
    → 0 < length xs
    → read_body (c ∷ xs) ≡ onto c (read_body xs)
unfolding read_body
read_body_plain c [] q h = absurd (omega arith)
read_body_plain c (d ∷ cs) q h = rw (q, read_body)

read_body-double :
    (s rest : Bytes)
    → Absent b'\'' (take 1 rest)
    → read_body (double s ++ b'\'' ∷ rest) ≡ some (s, rest)
unfolding double read_body
read_body-double [] [] h = refl
read_body-double [] (d ∷ rest) h =
    let q : (d == b'\'') ≡ false = ground (arith, h.0) in rw (q, read_body)
read_body-double (c ∷ s) rest h = elim (Bool-cases (c == b'\'')) [
  | inl q ↦ rw (q, double, read_body-double s rest h) (rw ((==_iff c b'\'').0 q))
  | inr q ↦
      let xs : Bytes = double s ++ b'\'' ∷ rest in
      rw (q, double)
        (read_body_plain c xs q (omega (arith, length-append (double s) (b'\'' ∷ rest)))
          ∙ ap (onto c) (read_body-double s rest h))
]

-- Take a text without a NUL, of a length whose double, with two quotes more, fits an `int`. The quoter succeeds, and SQL reads the literal
-- back as this very text, and the literal ends where the driver ended it, whatever follows that is not a quote: no text can break
-- out of its literal.
pub read_literal-fourd_handle_quoter :
    (s rest : Bytes)
    → Absent 0 s
    → 2 * length s + 2 < 2 ^ 31
    → Absent b'\'' (take 1 rest)
    → (q : Quoted) × (fourd_handle_quoter s ≡ ok q)
      × (read_literal (q.text ++ rest) ≡ some (s, rest))
unfolding read_literal
read_literal-fourd_handle_quoter s rest a small h = (
  quoted s,
  quoter_loops s a small,
  rw (append_assoc (double s) (b'\'' ∷ []) rest) (read_body-double s rest h),
)
