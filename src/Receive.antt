-- ===== src/Receive.antt =====
-- lib4d_sql/communication.c: the reads of a response. `Elements` is the inner switch of `socket_receiv_data`.
pub mod Elements
pub mod Wire
pub mod ElementLaws
pub mod Steps
pub mod Kinds
pub mod Silent
pub mod Ending
pub mod Rows
pub mod Cells
pub mod HeaderLaws
use pdo_4d.Base.{
  ℕ, zero, suc, ◌+◌, ◌-◌, ◌*◌, ◌%◌, ◌^◌, Bool, true, false, Option, none, some, List, [], ◌∷◌, ◌++◌,
  map, ltb, leb, ◌==◌, if◌then◌else◌, ℤ, signed64, Bytes, codes, cstr, starts_with, length,
  replicate, le_value,
}
use pdo_4d.Connection.{
  Element, Column, Fourd, FourdResult, blank_element, null_pointer, max_header_size,
}
use pdo_4d.FourdType.{FourdType}
use pdo_4d.Proc.{Proc, ret, fails, read, receive, ◌>>=◌}
use pdo_4d.Receive.Elements.{Cell, cell, broken, read_cell}

-- The bytes of a header, and whether its end was found.
pub record Header : Type 0 where
  pub text : Bytes
  pub ended : Bool

abbrev pub reversed_onto : Bytes → Bytes → Bytes
reversed_onto [] out = out
reversed_onto (c ∷ cs) out = reversed_onto cs (c ∷ out)

-- The last four bytes read are CR LF CR LF; the bytes are kept last first.
abbrev pub at_end : Bytes → Bool
at_end last_first = starts_with (codes "\n\r\n\r") last_first

-- The loop, with `room` bytes of the buffer left. The NUL behind the header wants one more.
pub header_loop : ℕ → Bytes → Proc Header
header_loop zero last_first = receive λ c. elim c [
  | none ↦ ret (record { text = reversed_onto last_first []; ended = false })
  | some _ ↦ fails
]
header_loop (suc room) last_first = receive λ c. elim c [
  | none ↦ ret (record { text = reversed_onto last_first []; ended = false })
  | some b ↦ elim (at_end (b ∷ last_first)) [
    | true ↦
        if room == 0
        then fails
        else ret (record { text = reversed_onto (b ∷ last_first) []; ended = true })
    | false ↦ header_loop room (b ∷ last_first)
  ]
]

-- The result, and the value returned. All that reads the header takes it for a string, which ends at the first NUL. A header without end
-- leaves `header_size` alone.
abbrev pub with_header : FourdResult → Header → FourdResult × ℕ
with_header state h =
    if h.ended
    then (record state { header = cstr h.text; header_size = length h.text }, 0)
    else (record state { header = cstr h.text }, 1)

unfoldable pub socket_receiv_header : FourdResult → Proc (FourdResult × ℕ)
unfolding header_loop
socket_receiv_header state = header_loop max_header_size [] >>= λ h. ret (with_header state h)

-- How the loops over rows and columns go on: with the elements so far, or by `return 1` with an error code.
pub data Loop : Type 0 where
  going : List Element → Loop
  stopped : ℤ → List Element → Loop

-- The loop over the columns; `alloc` elements were allocated.
pub read_columns : ℕ → List FourdType → List Element → Proc Loop
read_columns alloc [] acc = ret (going acc)
read_columns alloc (t ∷ ts) acc =
    if leb alloc (length acc)
    then fails
    else (read_cell t >>= λ c. elim c [
      | cell e ↦ read_columns alloc ts (acc ++ e ∷ [])
      | broken code ↦
          ret (
            stopped code (acc ++ (record { type = t; is_null = false; value = null_pointer }) ∷ []))
    ])

-- The status code and the row id, which are sent only if the rows can be updated; `some` is an error code.
pub read_row_id : Bool → Proc (Option ℤ)
read_row_id false = ret none
read_row_id true = do
  status_code ← read 1 ret
  (if le_value status_code == b'1'
      then (read 4 λ row_id. ret none)
      else if le_value status_code == b'2'
      then (read 8 λ code. ret (some (signed64 (le_value code))))
      else ret none)

-- The loop over the rows, with `rows` of them left.
pub read_rows : ℕ → Bool → ℕ → List FourdType → List Element → Proc Loop
read_rows zero updateable alloc types acc = ret (going acc)
read_rows (suc rows) updateable alloc types acc = read_row_id updateable >>= λ e. elim e [
  | some code ↦ ret (stopped code acc)
  | none ↦ read_columns alloc types acc >>= λ l. elim l [
    | going acc' ↦ read_rows rows updateable alloc types acc'
    | stopped code acc' ↦ ret (stopped code acc')
  ]
]

-- The rest of what `calloc` gave.
abbrev pub pad : ℕ → List Element → List Element
pad alloc acc = acc ++ replicate (alloc - length acc) blank_element

-- Types of the columns; `nbColumn` is the length of `Column`.
abbrev pub column_types_of : FourdResult → List FourdType
column_types_of state = elim state.columns [ none ↦ [] | some cs ↦ map (λ (c : Column). c.type) cs ]

-- `nbCol*nbRow` is a product of `unsigned int`.
unfoldable pub socket_receiv_data : FourdResult → Proc (FourdResult × ℕ)
unfolding read_rows read_row_id read_columns
socket_receiv_data state = do
  let alloc = state.nb_column * state.row_count_sent % 2 ^ 32
  l ← read_rows state.row_count_sent state.updateability alloc (column_types_of state) []
  elim l [
    | going acc ↦ ret (record state { elmt = some (pad alloc acc) }, 0)
    | stopped code acc ↦ ret (record state { elmt = some (pad alloc acc); error_code = code }, 1)
  ]

unfoldable pub socket_receiv_update_count : Fourd → Proc Fourd
socket_receiv_update_count cnx = do
  data8 ← read 8 ret
  ret (record cnx { updated_row = signed64 (le_value data8) })
