-- ===== src/Receive/Kinds/Data.antt =====
-- The elements that `socket_receiv_data` puts into a result.
use pdo_4d.Base.{
  ℕ, zero, suc, ◌-◌, ◌*◌, ◌%◌, ◌^◌, refl, Bool, false, Option, none, some, List, [], ◌∷◌, ◌++◌, leb,
  ℤ, length, replicate,
}
use pdo_4d.Connection.{Element, FourdResult, blank_element, null_pointer}
use pdo_4d.FourdType.{FourdType}
use pdo_4d.Proc.{World, run}
use pdo_4d.Proc.Always.{Always, Always-after, Always-bind, Always-if, Returns, run-Always}
use pdo_4d.Receive.{
  Loop, going, stopped, read_columns, read_row_id, read_rows, pad, column_types_of,
  socket_receiv_data,
}
use pdo_4d.Receive.Elements.{Cell, cell, broken, read_cell}
use pdo_4d.Receive.Kinds.{IsKind, IsTyped, read_cell-IsTyped}
use pdo_4d.Receive.Steps.{column_read, row_read, row_id_read, data_read}

abbrev pub AreKinds : List Element → Type 0
AreKinds [] = Unit
AreKinds (e ∷ es) = IsKind e × AreKinds es

AreKinds-append : (xs ys : List Element) → AreKinds xs → AreKinds ys → AreKinds (xs ++ ys)
AreKinds-append [] ys h g = g
AreKinds-append (x ∷ xs) ys (first, rest) g = (first, AreKinds-append xs ys rest g)

replicate-AreKinds : (n : ℕ) → AreKinds (replicate n blank_element)
replicate-AreKinds zero = tt
replicate-AreKinds (suc n) = (refl, replicate-AreKinds n)

pad-AreKinds : (alloc : ℕ) (acc : List Element) → AreKinds acc → AreKinds (pad alloc acc)
pad-AreKinds alloc acc h =
    AreKinds-append acc (replicate (alloc - length acc) blank_element) h
      (replicate-AreKinds (alloc - length acc))

abbrev LoopKinds : Loop → Type 0
LoopKinds (going acc) = AreKinds acc
LoopKinds (stopped code acc) = AreKinds acc

-- Each continuation, if the rest of its loop is right.
column_read-AreKinds :
    (alloc : ℕ) (t : FourdType) (ts : List FourdType) (acc : List Element)
    → AreKinds acc
    → ((next : List Element) → AreKinds next → Always LoopKinds (read_columns alloc ts next))
    → (c : Cell) → IsTyped t c
    → Always LoopKinds (column_read alloc t ts acc c)
column_read-AreKinds alloc t ts acc h later (cell e) (same, k) =
    later (acc ++ e ∷ []) (AreKinds-append acc (e ∷ []) h (k, tt))
column_read-AreKinds alloc t ts acc h later (broken code) k =
    AreKinds-append acc ((record { type = t; is_null = false; value = null_pointer }) ∷ []) h
      (refl, tt)

read_columns-AreKinds :
    (alloc : ℕ) (ts : List FourdType) (acc : List Element)
    → AreKinds acc
    → Always LoopKinds (read_columns alloc ts acc)
unfolding read_columns
read_columns-AreKinds alloc [] acc h = h
read_columns-AreKinds alloc (t ∷ ts) acc h = Always-if LoopKinds (leb alloc (length acc)) _ _ tt (
    Always-bind (IsTyped t) LoopKinds (read_cell t) (column_read alloc t ts acc)
      (read_cell-IsTyped t)
      (column_read-AreKinds alloc t ts acc h (read_columns-AreKinds alloc ts)))

row_read-AreKinds :
    (rows : ℕ) (updateable : Bool) (alloc : ℕ) (types : List FourdType)
    → ((acc : List Element)
        → AreKinds acc
        → Always LoopKinds (read_rows rows updateable alloc types acc))
    → (l : Loop) → LoopKinds l
    → Always LoopKinds (row_read rows updateable alloc types l)
row_read-AreKinds rows updateable alloc types later (going acc) k = later acc k
row_read-AreKinds rows updateable alloc types later (stopped code acc) k = k

row_id_read-AreKinds :
    (rows : ℕ) (updateable : Bool) (alloc : ℕ) (types : List FourdType) (acc : List Element)
    → AreKinds acc
    → ((acc : List Element)
        → AreKinds acc
        → Always LoopKinds (read_rows rows updateable alloc types acc))
    → (e : Option ℤ) → Always LoopKinds (row_id_read rows updateable alloc types acc e)
row_id_read-AreKinds rows updateable alloc types acc h later (some code) = h
row_id_read-AreKinds rows updateable alloc types acc h later none =
    Always-bind LoopKinds LoopKinds (read_columns alloc types acc)
      (row_read rows updateable alloc types) (read_columns-AreKinds alloc types acc h)
      (row_read-AreKinds rows updateable alloc types later)

read_rows-AreKinds :
    (rows : ℕ) (updateable : Bool) (alloc : ℕ) (types : List FourdType) (acc : List Element)
    → AreKinds acc
    → Always LoopKinds (read_rows rows updateable alloc types acc)
unfolding read_rows
read_rows-AreKinds zero updateable alloc types acc h = h
read_rows-AreKinds (suc rows) updateable alloc types acc h =
    Always-after LoopKinds (read_row_id updateable) (row_id_read rows updateable alloc types acc) (
      row_id_read-AreKinds rows updateable alloc types acc h
        (read_rows-AreKinds rows updateable alloc types))

-- The elements of a result, if it has a table.
abbrev pub HoldsKinds : FourdResult → Type 0
HoldsKinds res = elim res.elmt [ none ↦ Unit | some es ↦ AreKinds es ]

data_read-HoldsKinds :
    (state : FourdResult) (alloc : ℕ) (l : Loop)
    → LoopKinds l
    → Always (λ r. HoldsKinds r.0) (data_read state alloc l)
data_read-HoldsKinds state alloc (going acc) k = pad-AreKinds alloc acc k
data_read-HoldsKinds state alloc (stopped code acc) k = pad-AreKinds alloc acc k

-- Whatever a server sends, and whether the rows end in an error or not, every element of the table that `socket_receiv_data` leaves in
-- the result holds a null pointer or a value of the kind that the element's type says, so that each later cast
-- of its pointer by this type is to the structure that stands there.
pub socket_receiv_data-HoldsKinds :
    (state : FourdResult) (w : World) {r : FourdResult × ℕ}
    → Returns (run (socket_receiv_data state) w) r
    → HoldsKinds r.0
unfolding socket_receiv_data
socket_receiv_data-HoldsKinds state w ends =
    let alloc : ℕ = state.nb_column * state.row_count_sent % 2 ^ 32 in
    run-Always (λ r. HoldsKinds r.0) (socket_receiv_data state) w
      (Always-bind LoopKinds (λ r. HoldsKinds r.0)
        (read_rows state.row_count_sent state.updateability alloc (column_types_of state) [])
        (data_read state alloc)
        (read_rows-AreKinds state.row_count_sent state.updateability alloc (column_types_of state)
          [] tt)
        (data_read-HoldsKinds state alloc))
      ends
