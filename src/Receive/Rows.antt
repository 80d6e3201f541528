-- ===== src/Receive/Rows.antt =====
-- The reader takes the rows that the server sends back into the table of elements.
use pdo_4d.Base.{
  ℕ, ◌+◌, ◌-◌, ◌*◌, ◌%◌, ◌^◌, ◌<◌, ◌≤◌, ◌≡◌, refl, arith, Bool, true, false, none, some, List, [],
  ◌∷◌, ◌++◌, map, Bytes, length, length-append, append_assoc, append-nil, leb,
}
use pdo_4d.Connection.{Element, FourdResult}
use pdo_4d.FourdType.{FourdType}
use pdo_4d.Proc.Yields.{Yields, Yields-bind, Yields-ret, Yields-read}
use pdo_4d.Receive.Elements.{read_cell}
use pdo_4d.Receive.ElementLaws.{read_cell-wire}
use pdo_4d.Receive.Wire.{wire, wire_elements, Row, wire_row, wire_rows, table, AllSent, AreRows}
use pdo_4d.Receive.{
  going, read_columns, read_row_id, read_rows, pad, column_types_of, socket_receiv_data,
}

abbrev types_of : List Element → List FourdType
types_of es = map (λ (e : Element). e.type) es

read_columns-wire :
    (alloc : ℕ) (row acc : List Element) (rest : Bytes)
    → AllSent row
    → length acc + length row ≤ alloc
    → Yields
        (read_columns alloc (types_of row) acc)
        (wire_elements row ++ rest)
        (going (acc ++ row))
        rest
unfolding read_columns
read_columns-wire alloc [] acc rest sent room = rw append-nil (Yields-ret _ rest)
read_columns-wire alloc (e ∷ row) acc rest sent room =
    let free : leb alloc (length acc) ≡ false = ground arith in
    let later =
      read_columns-wire alloc row (acc ++ e ∷ []) rest sent.1
        (omega (arith, length-append {0} acc (e ∷ []))) in
    rw (free, append_assoc (wire e.value) (wire_elements row) rest)
      (Yields-bind (read_cell e.type) _ _ (read_cell-wire (wire_elements row ++ rest) sent.0)
        (rw (append_assoc acc (e ∷ []) row) at later))

read_row_id-wire :
    (id rest : Bytes) → 4 ≡ length id → Yields (read_row_id true) (b'1' ∷ (id ++ rest)) none rest
unfolding read_row_id
read_row_id-wire id rest e =
    Yields-read 1 (b'1' ∷ []) (id ++ rest) _ refl (omega arith)
      (Yields-read 4 id rest _ e (omega arith) (Yields-ret none rest))

-- The part in front of a row's elements, for rows that can be updated and for others.
abbrev prefix : Bool → Row → Bytes
prefix true r = b'1' ∷ r.id
prefix false r = []

wire_row-prefix : (u : Bool) (r : Row) → wire_row u r ≡ prefix u r ++ wire_elements r.elements
wire_row-prefix true r = refl
wire_row-prefix false r = refl

read_row_id-prefix :
    (u : Bool) (r : Row) (rest : Bytes)
    → 4 ≡ length r.id
    → Yields (read_row_id u) (prefix u r ++ rest) none rest
unfolding read_row_id
read_row_id-prefix true r rest e = read_row_id-wire r.id rest e
read_row_id-prefix false r rest e = Yields-ret none rest

read_rows-wire :
    (rows : List Row) (u : Bool) (alloc : ℕ) (types : List FourdType) (acc : List Element)
    (rest : Bytes)
    → AreRows types rows
    → length acc + length (table rows) ≤ alloc
    → Yields
        (read_rows (length rows) u alloc types acc)
        (wire_rows u rows ++ rest)
        (going (acc ++ table rows))
        rest
unfolding read_rows
read_rows-wire [] u alloc types acc rest h room = rw append-nil (Yields-ret _ rest)
read_rows-wire (r ∷ rows) u alloc types acc rest ((id, typed, sent), h) room =
    let total = length-append r.elements (table rows) in
    let later =
      read_rows-wire rows u alloc types (acc ++ r.elements) rest h
        (omega (arith, length-append {0} acc r.elements)) in
    let columns =
      read_columns-wire alloc r.elements acc (wire_rows u rows ++ rest) sent (omega arith) in
    rw
      (
        append_assoc (wire_row u r) (wire_rows u rows) rest,
        wire_row-prefix u r,
        append_assoc (prefix u r) (wire_elements r.elements) (wire_rows u rows ++ rest),
      )
      (Yields-bind (read_row_id u) _ _ (read_row_id-prefix u r _ id) (
        Yields-bind (read_columns alloc types acc) _ _ (rw typed at columns)
          (rw (append_assoc acc r.elements (table rows)) at later)))

pad_full : (alloc : ℕ) (es : List Element) → alloc ≡ length es → pad alloc es ≡ es
pad_full alloc es e =
    let none_left : alloc - length es ≡ 0 = omega arith in rw none_left (append-nil es)

-- Over the byte stream: when the server sends the rows of a result set, each with one element of every column's type
-- and none of them a FLOAT that is not null, a text of 2 ^ 30 - 1 units or more, or binary data of 2 ^ 31 bytes or
-- more, `socket_receiv_data` returns 0 with exactly the elements of these rows, row by row, and reads not one byte
-- beyond them.
pub socket_receiv_data-wire_rows :
    (state : FourdResult) (rows : List Row) (rest : Bytes)
    → AreRows (column_types_of state) rows
    → state.row_count_sent ≡ length rows
    → length (table rows) ≡ state.nb_column * state.row_count_sent
    → state.nb_column * state.row_count_sent < 2 ^ 32
    → Yields
        (socket_receiv_data state)
        (wire_rows state.updateability rows ++ rest)
        (record state { elmt = some (table rows) }, 0)
        rest
unfolding socket_receiv_data
socket_receiv_data-wire_rows state rows rest h count full small =
    let alloc = state.nb_column * state.row_count_sent % 2 ^ 32 in
    let exact : alloc ≡ length (table rows) = ground arith in
    let read =
      read_rows-wire rows state.updateability alloc (column_types_of state) [] rest h
        (omega arith) in
    Yields-bind
      (read_rows state.row_count_sent state.updateability alloc (column_types_of state) []) _
      (wire_rows state.updateability rows ++ rest) (rw (← count) at read)
      (rw (pad_full alloc (table rows) exact) (Yields-ret _ rest))
