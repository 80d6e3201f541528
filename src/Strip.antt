-- ===== src/Strip.antt =====
-- lib4d_sql/utils.c: `strstrip`, whose `isspace` is a macro for the space alone.
pub mod Laws
use pdo_4d.Base.{ℕ, [], ◌∷◌, ◌==◌, if◌then◌else◌, Bytes}

-- The string that is left in the buffer, and the one that the returned pointer shows.
pub record Stripped : Type 0 where
  pub buffer : Bytes
  pub returned : Bytes

-- A space is kept only in front of something that is kept.
abbrev pub keep : ℕ → Bytes → Bytes
keep c [] = if c == b' ' then [] else c ∷ []
keep c (d ∷ r) = c ∷ d ∷ r

abbrev pub trim_end : Bytes → Bytes
trim_end [] = []
trim_end (c ∷ cs) = keep c (trim_end cs)

abbrev pub trim_start : Bytes → Bytes
trim_start [] = []
trim_start (c ∷ cs) = if c == b' ' then trim_start cs else c ∷ cs

-- `end` never passes the first character, so that character stays in the buffer.
unfoldable pub strstrip : Bytes → Stripped
strstrip [] = record { buffer = []; returned = [] }
strstrip (c ∷ cs) = record { buffer = c ∷ trim_end cs; returned = trim_start (c ∷ trim_end cs) }
