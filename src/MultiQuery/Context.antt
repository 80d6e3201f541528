-- ===== src/MultiQuery/Context.antt =====
-- Where a character of a request stands, and what it means that a second statement begins.
use pdo_4d.Base.{ℕ, ◌+◌, ◌&&◌, ◌∷◌, ◌≡◌, ◌≢◌, ltb, ◌==◌, if◌then◌else◌, Bytes}

-- Outside all quotes, inside a bracketed 4D name, or inside a string literal.
pub data Context : Type 0 where
  plain in_name in_text : Context

-- The context behind character `c`, which stands at index `i` behind `prev`. A doubled `]`
-- (from index 2 on) leads back into the name.
abbrev pub after : ℕ → ℕ → Context → ℕ → Context
after i prev plain c =
    if c == b'['
    then in_name
    else if c == b'\''
    then in_text
    else if c == b']' && ltb 1 i && prev == b']'
    then in_name
    else plain
after i prev in_name c = if c == b']' then plain else in_name
after i prev in_text c = if c == b'\'' then plain else in_text

-- A character that belongs to a statement: no space, and none of the four that the scan reads.
pub record IsVisible (c : ℕ) : Type 0 where
  pub not_open : c ≢ b'['
  pub not_close : c ≢ b']'
  pub not_quote : c ≢ b'\''
  pub not_semicolon : c ≢ b';'
  pub not_space : c ≢ b' '

-- Some visible character of the text stands outside names and strings.
pub data Continues : ℕ → ℕ → Context → Bytes → Type 0 where
  here :
      {i prev : ℕ} {k : Context} {c : ℕ} {rest : Bytes}
      → k ≡ plain
      → IsVisible c
      → Continues i prev k (c ∷ rest)
  later :
      {i prev : ℕ} {k : Context} {c : ℕ} {rest : Bytes}
      → Continues (i + 1) c (after i prev k c) rest
      → Continues i prev k (c ∷ rest)

-- Some `;` stands outside names and strings, and the text behind it continues.
pub data HasSecond : ℕ → ℕ → Context → Bytes → Type 0 where
  here :
      {i prev : ℕ} {k : Context} {c : ℕ} {rest : Bytes}
      → k ≡ plain
      → c ≡ b';'
      → Continues (i + 1) c plain rest
      → HasSecond i prev k (c ∷ rest)
  later :
      {i prev : ℕ} {k : Context} {c : ℕ} {rest : Bytes}
      → HasSecond (i + 1) c (after i prev k c) rest
      → HasSecond i prev k (c ∷ rest)
