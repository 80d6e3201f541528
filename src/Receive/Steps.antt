-- ===== src/Receive/Steps.antt =====
-- The loops of Receive: how each goes on behind what it read.
use pdo_4d.Base.{
  ℕ, Bool, true, false, Option, none, some, List, [], ◌∷◌, ◌++◌, ◌==◌, if◌then◌else◌, ℤ, Bytes,
}
use pdo_4d.Connection.{Element, FourdResult, null_pointer}
use pdo_4d.FourdType.{FourdType}
use pdo_4d.Proc.{Proc, ret, fails, ◌>>=◌}
use pdo_4d.Receive.{
  Header, header_loop, at_end, reversed_onto, Loop, going, stopped, read_columns, read_rows, pad,
}
use pdo_4d.Receive.Elements.{Cell, cell, broken}

-- The loop over the bytes of a header: a full buffer, a byte, and the test for the end.
abbrev pub full_read : Bytes → Option ℕ → Proc Header
full_read last_first none = ret (record { text = reversed_onto last_first []; ended = false })
full_read last_first (some b) = fails

abbrev pub tested : ℕ → Bytes → Bool → Proc Header
tested room last_first true =
    if room == 0 then fails else ret (record { text = reversed_onto last_first []; ended = true })
tested room last_first false = header_loop room last_first

abbrev pub byte_read : ℕ → Bytes → Option ℕ → Proc Header
byte_read room last_first none = ret (record { text = reversed_onto last_first []; ended = false })
byte_read room last_first (some b) = tested room (b ∷ last_first) (at_end (b ∷ last_first))

-- The loops over columns and rows: an element, a row, and a row id.
abbrev pub column_read : ℕ → FourdType → List FourdType → List Element → Cell → Proc Loop
column_read alloc t ts acc (cell e) = read_columns alloc ts (acc ++ e ∷ [])
column_read alloc t ts acc (broken code) =
    ret (stopped code (acc ++ (record { type = t; is_null = false; value = null_pointer }) ∷ []))

abbrev pub row_read : ℕ → Bool → ℕ → List FourdType → Loop → Proc Loop
row_read rows updateable alloc types (going acc) = read_rows rows updateable alloc types acc
row_read rows updateable alloc types (stopped code acc) = ret (stopped code acc)

abbrev pub row_id_read : ℕ → Bool → ℕ → List FourdType → List Element → Option ℤ → Proc Loop
row_id_read rows updateable alloc types acc (some code) = ret (stopped code acc)
row_id_read rows updateable alloc types acc none =
    read_columns alloc types acc >>= row_read rows updateable alloc types

-- The end of `socket_receiv_data`.
abbrev pub data_read : FourdResult → ℕ → Loop → Proc (FourdResult × ℕ)
data_read state alloc (going acc) = ret (record state { elmt = some (pad alloc acc) }, 0)
data_read state alloc (stopped code acc) =
    ret (record state { elmt = some (pad alloc acc); error_code = code }, 1)
