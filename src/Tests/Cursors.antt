-- ===== src/Tests/Cursors.antt =====
-- Cursors, the columns that PHP gets, the parameters of statements, and an attempt to connect.
use pdo_4d.Base.{
  ℕ, ◌*◌, ◌+◌, none, ◌≡◌, refl, arith, true, false, some, [], ◌∷◌, codes, pos, inr, ok, get_elem?,
  if◌then◌else◌,
}
use pdo_4d.Client.Cursor.{before_first, fourd_next_row}
use pdo_4d.Client.Cursor.Held.{HeldRows}
use pdo_4d.Client.Cursor.Window.{IsCursor, IsCurrent, fourd_next_row-IsCurrent}
use pdo_4d.Client.Field.{fourd_field}
use pdo_4d.Client.Field.Bounds.{IsTable, fourd_field_current}
use pdo_4d.Client.Socket.{Connecting, System, socket_connect_timeout}
use pdo_4d.Client.Socket.Opening.{IsOpened, socket_connect_timeout-IsOpened}
use pdo_4d.Client.Statement.Bindable.{Bindable}
use pdo_4d.Connection.{Element, Fourd, FourdResult, null_pointer}
use pdo_4d.FourdType.{vk_long}
use pdo_4d.Driver.{Stmt}
use pdo_4d.Driver.Statement.{pdo_4d_stmt_get_col}
use pdo_4d.Driver.Statement.Column.{IsCell, pdo_4d_stmt_get_col-shown}
use pdo_4d.Driver.Statement.Rows.{IsWhole, at_row, fetches, fetches_every_row}
use pdo_4d.Proc.{ret, run}
use pdo_4d.Proc.Always.{Returns}
use pdo_4d.Session.Exchange.{Reply}
use pdo_4d.Tests.Data.{rows_result, cnx, seven, world}
use pdo_4d.Tests.Responses.{stmt}

-- A result whose two rows are held, before its first row.
abbrev cursor : FourdResult
cursor = record rows_result {
  row_count = 2;
  row_count_sent = 2;
  elmt = some (seven ∷ seven ∷ []);
  num_row = 4294967295;
}

abbrev on_first_row : Reply
on_first_row = record { cnx = cnx; result = record cursor { num_row = 0 }; failed = false }

cursor-IsCursor : IsCursor cursor
cursor-IsCursor = record {
  small = omega arith;
  held = omega arith;
  some_rows = omega arith;
  first = omega arith;
  last = omega arith;
}

moved : Returns (run (fourd_next_row cnx cursor) world) on_first_row
unfolding run fourd_next_row
moved = Returns.returns on_first_row world

fourd_next_row-IsCurrent_example :
    IsCurrent on_first_row.result
    × (on_first_row.result.row_count ≡ 2)
    × (on_first_row.result.num_row ≡ 0)
    × HeldRows cnx cursor world on_first_row.result
fourd_next_row-IsCurrent_example =
    fourd_next_row-IsCurrent cnx cursor world cursor-IsCursor moved refl

on_row-IsCurrent : IsCurrent (record cursor { num_row = 1 })
on_row-IsCurrent = record {
  small = omega arith;
  held = omega arith;
  first = omega arith;
  last = omega arith;
}

fourd_field_current_example :
    (e : Element) × (get_elem? (seven ∷ seven ∷ []) 1 ≡ some e)
    × (fourd_field cnx (record cursor { num_row = 1 }) 0
        ≡ ok (cnx, if e.is_null then null_pointer else e.value))
fourd_field_current_example =
    fourd_field_current cnx (record cursor { num_row = 1 }) (seven ∷ seven ∷ []) 0 on_row-IsCurrent
      (record { elements = refl; whole = refl; small = omega arith }) (omega arith)

abbrev refused : System
refused = record {
  addrinfo = pos 0;
  addrinfo_text = [];
  socket = some 5;
  socket_errno = pos 0;
  connecting = Connecting.writable (pos 111) (codes "Connection refused");
}

abbrev refused_result : Fourd × ℕ
refused_result = (
  record cnx { socket = none; error_code = pos 111; error_string = codes "Connection refused" },
  1,
)

refused-run :
    Returns
      (run (socket_connect_timeout refused (record cnx { socket = none })) world)
      refused_result
unfolding run socket_connect_timeout
refused-run = Returns.returns refused_result (record world { is_open = false })

socket_connect_timeout-IsOpened_example : IsOpened (some 5) refused_result
socket_connect_timeout-IsOpened_example =
    socket_connect_timeout-IsOpened refused (record cnx { socket = none }) world refl refused-run

cursor-IsWhole : IsWhole cursor
cursor-IsWhole = record { starts = refl; all_sent = refl; small = omega arith }

cursor-IsTable : IsTable cursor (seven ∷ (seven ∷ []))
cursor-IsTable = record { elements = refl; whole = refl; small = omega arith }

fetches_every_row_example :
    (fetches 2 (at_row stmt cursor before_first) ≡ ret (at_row stmt cursor 1, true))
    × (fetches 3 (at_row stmt cursor before_first) ≡ ret (at_row stmt cursor 2, false))
    × (e : Element) × (get_elem? (seven ∷ (seven ∷ [])) (1 * 1 + 0) ≡ some e)
    × (fourd_field cnx (record cursor { num_row = 1 }) 0
        ≡ ok (cnx, if e.is_null then null_pointer else e.value))
fetches_every_row_example =
    fetches_every_row stmt cursor (seven ∷ (seven ∷ [])) 1 0 cursor-IsWhole cursor-IsTable refl
      (omega arith) (omega arith)

-- The statement whose cursor is on its first row.
abbrev on_row : Stmt
on_row = record stmt { result = some on_first_row.result; column_count = 1 }

on_row-IsCell : IsCell on_row on_first_row.result 0 seven
on_row-IsCell = record {
  elmt = seven ∷ (seven ∷ []);
  columns = record { s_type = codes "VK_LONG"; type = vk_long; s_column_name = codes "ID" } ∷ [];
  column = record { s_type = codes "VK_LONG"; type = vk_long; s_column_name = codes "ID" };
  has_result = refl;
  all_columns = refl;
  in_row = omega arith;
  current = record {
    small = omega arith;
    held = omega arith;
    first = omega arith;
    last = omega arith;
  };
  table = record { elements = refl; whole = refl; small = omega arith };
  has_columns = refl;
  column_found = refl;
  found = refl;
  same_type = refl;
}

pdo_4d_stmt_get_col-shown_example :
    pdo_4d_stmt_get_col (λ s to from. s) (λ bs. bs) on_row 0 ≡ ok (on_row, some (some (codes "7")))
pdo_4d_stmt_get_col-shown_example =
    pdo_4d_stmt_get_col-shown (λ s to from. s) (λ bs. bs) on_row on_first_row.result 0 seven
      on_row-IsCell
      (inr (refl, (omega arith, (omega arith, (omega arith, (omega arith, (omega arith, tt)))))))
