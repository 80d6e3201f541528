-- ===== src/Driver/Statement/Selected.antt =====
-- A query for rows through the driver, from the request to what PHP gets of a column of a row.
use pdo_4d.Base.{pos_part, signed32}
use pdo_4d.Base.{
  ℕ, suc, ◌+◌, ◌*◌, ◌-◌, ◌^◌, ◌<◌, ◌≡◌, inl, inr, refl, sym, ap, ◌∙◌, arith, true, false, Option,
  none, some, List, [], ◌∷◌, ◌++◌, length, get_elem?, Bytes, Outcome, ok, Option-cases,
}
use pdo_4d.Client.Cursor.{before_first}
use pdo_4d.Connection.{Element, Column, FourdResult, blank_result}
use pdo_4d.Driver.{Stmt}
use pdo_4d.Driver.Statement.{pdo_4d_stmt_execute, pdo_4d_stmt_get_col}
use pdo_4d.Driver.Statement.Column.{IsCell, contents_of, shown, pdo_4d_stmt_get_col-shown}
use pdo_4d.Driver.Statement.Executed.{holding, pdo_4d_stmt_execute-IsResultSet}
use pdo_4d.Driver.Statement.Rows.{at_row, fetches, fetches-row}
use pdo_4d.Driver.Statement.Sent.{HasBytes, is_short, IsSent-IsShowable}
use pdo_4d.FourdType.{FourdType}
use pdo_4d.MultiQuery.{is_multi_query}
use pdo_4d.Proc.{Proc, ret, ◌>>=◌}
use pdo_4d.Proc.Refine.{serve}
use pdo_4d.Proc.Yields.{serve-bind}
use pdo_4d.Receive.{column_types_of}
use pdo_4d.Receive.Cells.{cell-AreRows, column_at-type}
use pdo_4d.Receive.Wire.{Row, wire_rows, table, IsSent}
use pdo_4d.Session.Message.{statement_message}
use pdo_4d.Session.Served.{IsResponse, IsResultSet}

-- What PDO does for a column of the row `row`: it executes the statement, fetches row after row, and asks for the column.
unfoldable pub selected :
    (Option Bytes → Bytes → Bytes → Option Bytes)
    → (Bytes → Bytes)
    → Stmt
    → ℕ
    → ℕ
    → Proc (Outcome (Stmt × Option (Option Bytes)))
selected mb_convert_encoding format_lf stmt row colno = pdo_4d_stmt_execute stmt >>= λ a.
    fetches (suc row) a.0 >>= λ f. ret (pdo_4d_stmt_get_col mb_convert_encoding format_lf f.0 colno)

-- The response announces all rows at once, with a column for each type.
pub record IsSinglePage (t : FourdResult) (rows : List Row) : Type 0 where
  pub result_set : IsResultSet t rows
  pub from_first : t.first_row ≡ 0
  pub all_sent : t.row_count_sent ≡ t.row_count
  pub few : t.row_count + 99 < 2 ^ 32
  pub narrow : t.nb_column < 2 ^ 31
  pub typed : length (column_types_of t) ≡ t.nb_column

counted : (n : ℕ) → n < 2 ^ 31 → pos_part (signed32 n) ≡ n
counted n h = ground arith

no_columns : (ty : FourdType) → ¬ (none ≡ some ty)
no_columns ty h = cc

columns_of :
    (t : FourdResult) (col : ℕ) (ty : FourdType)
    → get_elem? (column_types_of t) col ≡ some ty
    → (cs : List Column) × (t.columns ≡ some cs)
      × (c : Column) × (get_elem? cs col ≡ some c)
      × (c.type ≡ ty)
columns_of t col ty h = elim (Option-cases t.columns) [
  | inl e ↦ absurd (no_columns ty (rw e at h))
  | inr (cs, e) ↦
      let (c, found, type) = column_at-type cs col ty (rw e at h) in (cs, e, c, found, type)
]

module _ (stmt : Stmt) (t : FourdResult) (rows : List Row) (row colno : ℕ) (e : Element)
    (page : IsSinglePage t rows) (in_rows : row < t.row_count) (in_row : colno < t.nb_column)
    (found : get_elem? (table rows) (row * t.nb_column + colno) ≡ some e) where
  abbrev pub held : FourdResult
  held = record t { elmt = some (table rows); num_row = before_first }

  abbrev pub fetched : Stmt
  fetched = at_row (holding stmt t rows) held row

  cell : (get_elem? (column_types_of t) colno ≡ some e.type) × IsSent e
  cell =
      cell-AreRows (column_types_of t) rows row colno e page.result_set.typed
        (omega (arith, page.typed, in_row))
        (ap (λ n. get_elem? (table rows) (row * n + colno)) page.typed ∙ found)

  fetched-IsCell : IsCell fetched (record held { num_row = row }) colno e
  fetched-IsCell =
      let (columns, has_columns, column, column_found, same_type) =
        columns_of t colno e.type cell.0 in
      let offset : row ≡ row - t.first_row = omega (arith, page.from_first) in
      record {
        elmt = table rows;
        columns = columns;
        column = column;
        has_result = refl;
        all_columns = counted t.nb_column page.narrow;
        in_row = in_row;
        current = record {
          small = page.few;
          held = omega (arith, page.from_first, page.all_sent);
          first = omega (arith, page.from_first);
          last = omega (arith, page.from_first, page.all_sent, in_rows);
        };
        table = record {
          elements = refl;
          whole = page.result_set.whole;
          small = page.result_set.small;
        };
        has_columns = has_columns;
        column_found = column_found;
        found = ap (λ n. get_elem? (table rows) (n * t.nb_column + colno)) (sym offset) ∙ found;
        same_type = same_type;
      }

  fetches-holding : fetches (suc row) (holding stmt t rows) ≡ ret (fetched, true)
  fetches-holding =
      fetches-row (holding stmt t rows) held
        (record { starts = page.from_first; all_sent = page.all_sent; small = page.few }) row
        in_rows

  pub serve-selected :
      (mb_convert_encoding : Option Bytes → Bytes → Bytes → Option Bytes)
      (format_lf : Bytes → Bytes) (msg h rest : Bytes)
      → stmt.state ≡ none
      → is_multi_query (some stmt.active_query_string) ≡ false
      → statement_message 3 stmt.active_query_string stmt.dbh.server.preferred_image_types ≡ ok msg
      → IsResponse blank_result h (t, 0)
      → is_short e.type ≡ false
      → HasBytes e.value
      → serve
          (selected mb_convert_encoding format_lf stmt row colno)
          (h ++ (wire_rows t.updateability rows ++ rest))
        ≡ some (record {
          value = ok (
            fetched,
            some (shown mb_convert_encoding stmt.charset e.type (contents_of format_lf e)),
          );
          rest = rest;
          sent = msg ∷ [];
        })
  unfolding selected serve
  serve-selected mb format_lf msg h rest unprepared single m r short bytes =
      serve-bind (pdo_4d_stmt_execute stmt) _ (h ++ (wire_rows t.updateability rows ++ rest))
        (pdo_4d_stmt_execute-IsResultSet stmt msg h rest t rows unprepared single m r
          page.result_set)
        (rw
          (
            fetches-holding,
            pdo_4d_stmt_get_col-shown mb format_lf fetched (record held { num_row = row }) colno e
                fetched-IsCell (IsSent-IsShowable e short bytes cell.1),
            serve,
          )
          refl)
