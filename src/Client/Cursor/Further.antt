-- ===== src/Client/Cursor/Further.antt =====
-- The step of a cursor to a row that the server still holds.
use pdo_4d.Base.{◌+◌, ◌*◌, ◌<◌, ◌≤◌, ◌≡◌, true, some, List, length}
use pdo_4d.Client.Cursor.{advance, is_behind}
use pdo_4d.Connection.{Element, FourdResult}
use pdo_4d.Receive.Wire.{Row}
use pdo_4d.Session.Fetch.{u32}
use pdo_4d.Session.Served.Further.{asked_rows}

-- There is a next row, and it is none of those held.
pub record IsLast (res : FourdResult) : Type 0 where
  pub more : u32 (res.num_row + 1) < res.row_count
  pub behind : is_behind (advance res) ≡ true

-- As many rows as were asked for, each with the columns of the result.
pub record IsFull (res t : FourdResult) (r : Row) : Type 0 where
  pub all_rows : t.row_count_sent ≡ asked_rows (advance res)
  pub columns : t.nb_column ≡ res.nb_column
  pub row : res.nb_column ≡ length r.elements

-- The table that is given up has at least as many elements as the new page.
pub record HasRoom (res t : FourdResult) : Type 0 where
  pub old : List Element
  pub elements : res.elmt ≡ some old
  pub enough : t.nb_column * t.row_count_sent ≤ length old
