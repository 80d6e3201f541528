-- ===== src/Header/Response.antt =====
-- `traite_header_response` and `receiv_check`: a header into the fields of the result.
use pdo_4d.Base.{
  ℕ, ◌+◌, ◌^◌, Bool, true, false, Option, none, some, List, [], ◌∷◌, ltb, leb, if◌then◌else◌, eqb_ℤ,
  pos, to_unsigned, Bytes, codes, strstr, tokens, atoi, length, set, get_or, replicate, Outcome, ok,
  fault, ◌>>=◌,
}
use pdo_4d.Connection.{Column, FourdResult, blank_column, max_header_size}
use pdo_4d.FourdType.{type_from_string, result_type_from_string}
use pdo_4d.Header.Field.{get}
use pdo_4d.Header.Status.{get_status}
use pdo_4d.Header.Aliases.{read_aliases}
use pdo_4d.Strip.{strstrip}

-- A field that is there changes the result by `f`.
abbrev with_field :
    Bytes → ℕ → (Bytes → FourdResult → Outcome FourdResult) → FourdResult → Outcome FourdResult
with_field section max f r = do
  found ← get r.header section max
  elim found [ none ↦ ok r | some v ↦ f v r ]

abbrev unsigned : Bytes → ℕ
unsigned v = to_unsigned (2 ^ 32) (atoi v)

abbrev column_list : FourdResult → List Column
column_list r = elim r.columns [ none ↦ [] | some cs ↦ cs ]

pub column_count : FourdResult → Outcome FourdResult
column_count = with_field (codes "Column-Count") max_header_size λ v r.
    let n = unsigned v in ok (record r { nb_column = n; columns = some (replicate n blank_column) })

-- One type into column `num`; `sType` has 255 bytes, the NUL included.
pub set_types : ℕ → List Column → List Bytes → Outcome (List Column)
set_types num columns [] = ok columns
set_types num columns (column ∷ rest) = do
  columns' ←
      (if ltb num (length columns)
        then if leb 255 (length column)
          then fault
          else ok (
              set columns num (record (get_or columns num blank_column) {
                type = type_from_string column;
                s_type = column;
              }))
        else ok columns)
  set_types (num + 1) columns' rest

pub column_types : FourdResult → Outcome FourdResult
unfolding set_types
column_types = with_field (codes "Column-Types") max_header_size λ v r. do
  columns ← set_types 0 (column_list r) (tokens b' ' v)
  ok (record r { columns = elim r.columns [ none ↦ none | some _ ↦ some columns ] })

pub column_aliases : FourdResult → Outcome FourdResult
column_aliases = with_field (codes "Column-Aliases-Base64") max_header_size λ v r. do
  columns ← read_aliases (column_list r) v
  ok (record r { columns = elim r.columns [ none ↦ none | some _ ↦ some columns ] })

pub row_count : FourdResult → Outcome FourdResult
row_count = with_field (codes "Row-Count") 250 λ v r. ok (record r { row_count = unsigned v })

pub row_count_sent : FourdResult → Outcome FourdResult
row_count_sent =
    with_field (codes "Row-Count-Sent") 250 λ v r. ok (record r { row_count_sent = unsigned v })

pub statement_id : FourdResult → Outcome FourdResult
statement_id = with_field (codes "Statement-ID") 250 λ v r. ok (record r { id_statement = atoi v })

abbrev is_some {ℓ} : {A : Type ℓ} → Option A → Bool
is_some none = false
is_some (some _) = true

pub updateability : FourdResult → Outcome FourdResult
updateability r =
    with_field (codes "Column-Updateability") 250
      (λ v r. ok (record r { updateability = is_some (strstr v (codes "Y")) }))
      (record r { updateability = true })

-- The last field, and the value returned: 1 for more than one result type.
pub result_type : FourdResult → Outcome (FourdResult × ℕ)
result_type r = do
  found ← get r.header (codes "Result-Type") 250
  elim found [
    | none ↦ ok (r, 0)
    | some v ↦
        let stripped = (strstrip v).buffer in
        if is_some (strstr stripped (codes " "))
        then ok (r, 1)
        else ok (record r { result_type = result_type_from_string stripped }, 0)
  ]

-- The fields of a header without error, in the order of the source.
pub read_fields : FourdResult → Outcome (FourdResult × ℕ)
unfolding column_count column_types column_aliases row_count row_count_sent statement_id
    updateability result_type
read_fields r =
    column_count r
    >>= column_types
    >>= column_aliases
    >>= row_count
    >>= row_count_sent
    >>= statement_id
    >>= updateability
    >>= result_type

unfoldable pub traite_header_response : FourdResult → Outcome (FourdResult × ℕ)
unfolding read_fields
traite_header_response state = do
  s ← get_status state.header state.error_code state.error_string
  let r = record state {
    elmt = none;
    status = s.status;
    error_code = s.error_code;
    error_string = s.error_string;
  }
  if eqb_ℤ s.ret (pos 0) then read_fields r else ok (r, 1)
