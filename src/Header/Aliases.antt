-- ===== src/Header/Aliases.antt =====
-- `_alias_str_replace`, and the split of `Column-Aliases-Base64` into column names.
use pdo_4d.Base.{
  ℕ, ◌+◌, ◌-◌, Bool, false, not, ◌&&◌, List, [], ◌∷◌, ltb, leb, ◌==◌, if◌then◌else◌, Bytes, codes,
  starts_with, length, take, drop, set, get_or, tokens, Outcome, ok, fault, ◌>>=◌,
}
use pdo_4d.Connection.{Column, blank_column}

-- The loop over the occurrences of `] [`, one character at a time: at index `i` behind `prev`, and
-- `cut` when the occurrence that began at `prev` gets its space replaced.
pub replace_from : ℕ → ℕ → Bool → Bytes → Bytes
replace_from i prev cut [] = []
replace_from i prev cut (c ∷ cs) =
    let found = starts_with (codes "] [") (c ∷ cs) in
    let now = if cut then b'\r' else c in
    now ∷ replace_from (i + 1) now (found && not (ltb 1 i && prev == b']')) cs

unfoldable pub alias_str_replace : Bytes → Bytes
unfolding replace_from
alias_str_replace list_alias = replace_from 0 0 false list_alias

abbrev pub last : Bytes → ℕ
last [] = 0
last (c ∷ []) = c
last (c ∷ d ∷ cs) = last (d ∷ cs)

-- The name without its brackets.
abbrev pub erase_brackets : Bytes → Bytes
erase_brackets alias =
    if get_or alias 0 0 == b'[' && last alias == b']'
    then take (length alias - 2) (drop 1 alias)
    else alias

-- One name into column `num`. A name of 255 bytes or more leaves no NUL in the array of 255.
abbrev pub set_name : ℕ → List Column → Bytes → Outcome (List Column)
set_name num columns alias =
    if ltb num (length columns)
    then if leb 255 (length (erase_brackets alias))
      then fault
      else ok (
          set columns num
            (record (get_or columns num blank_column) { s_column_name = erase_brackets alias }))
    else ok columns

pub set_names : ℕ → List Column → List Bytes → Outcome (List Column)
set_names num columns [] = ok columns
set_names num columns (alias ∷ rest) = do
  columns' ← set_name num columns alias
  set_names (num + 1) columns' rest

-- The last space is taken off; an empty value is read at index -1.
abbrev pub drop_last_space : Bytes → Outcome Bytes
drop_last_space [] = fault
drop_last_space (c ∷ cs) = ok (if last (c ∷ cs) == b' ' then take (length cs) (c ∷ cs) else c ∷ cs)

unfoldable pub read_aliases : List Column → Bytes → Outcome (List Column)
unfolding alias_str_replace set_names
read_aliases columns column_alias = do
  trimmed ← drop_last_space column_alias
  set_names 0 columns (tokens b'\r' (alias_str_replace trimmed))
