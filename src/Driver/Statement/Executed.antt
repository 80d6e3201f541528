-- ===== src/Driver/Statement/Executed.antt =====
-- A query for rows, through the driver.
use pdo_4d.Base.{
  ◌≡◌, refl, true, false, Option, none, some, List, [], ◌∷◌, ◌++◌, pos, pos_part, Bytes, ok,
}
use pdo_4d.Client.Access.{fourd_num_columns}
use pdo_4d.Client.Cursor.{as_cursor, fourd_query, before_first}
use pdo_4d.Connection.{Fourd, FourdResult, FourdStatement, blank_result}
use pdo_4d.Driver.{Stmt}
use pdo_4d.Driver.Statement.{executed, execution, pdo_4d_stmt_execute}
use pdo_4d.MultiQuery.{is_multi_query}
use pdo_4d.Proc.{World, run, ret}
use pdo_4d.Proc.Refine.{serve, IsReady, Ends, run-serve}
use pdo_4d.Proc.Yields.{serve-bind}
use pdo_4d.Receive.Wire.{Row, wire_rows, table}
use pdo_4d.Session.Message.{statement_message}
use pdo_4d.Session.Query.{query}
use pdo_4d.Session.Served.{IsResponse, IsResultSet, rows_reply, query-IsResultSet}

-- The statement that holds these rows, in front of the first one.
abbrev pub holding : Stmt → FourdResult → List Row → Stmt
holding stmt t rows = record stmt {
  dbh = record (stmt.dbh) { server = (rows_reply stmt.dbh.server t rows).cnx };
  result = some (record t { elmt = some (table rows); num_row = before_first });
  row_count = pos t.row_count;
  column_count = pos_part (fourd_num_columns t);
}

execution-IsResultSet :
    (cnx : Fourd) (request msg h rest : Bytes) (t : FourdResult) (rows : List Row)
    (state : Option FourdStatement)
    → state ≡ none
    → is_multi_query (some request) ≡ false
    → statement_message 3 request cnx.preferred_image_types ≡ ok msg
    → IsResponse blank_result h (t, 0)
    → IsResultSet t rows
    → serve (execution cnx request state) (h ++ (wire_rows t.updateability rows ++ rest))
      ≡ some (record { value = as_cursor (rows_reply cnx t rows); rest = rest; sent = msg ∷ [] })
unfolding fourd_query serve
execution-IsResultSet cnx request msg h rest t rows (some state) e single m r a = absurd (cc)
execution-IsResultSet cnx request msg h rest t rows none e single m r a =
    serve-bind (query cnx 3 request blank_result cnx.preferred_image_types) (λ r. ret (as_cursor r))
      (h ++ (wire_rows t.updateability rows ++ rest))
      (query-IsResultSet cnx 3 request blank_result cnx.preferred_image_types msg h rest t rows
        single m r a)
      refl

pub pdo_4d_stmt_execute-IsResultSet :
    (stmt : Stmt) (msg h rest : Bytes) (t : FourdResult) (rows : List Row)
    → stmt.state ≡ none
    → is_multi_query (some stmt.active_query_string) ≡ false
    → statement_message 3 stmt.active_query_string stmt.dbh.server.preferred_image_types ≡ ok msg
    → IsResponse blank_result h (t, 0)
    → IsResultSet t rows
    → serve (pdo_4d_stmt_execute stmt) (h ++ (wire_rows t.updateability rows ++ rest))
      ≡ some (record { value = (holding stmt t rows, true); rest = rest; sent = msg ∷ [] })
unfolding pdo_4d_stmt_execute serve
pdo_4d_stmt_execute-IsResultSet stmt msg h rest t rows unprepared single m r a =
    serve-bind (execution stmt.dbh.server stmt.active_query_string stmt.state)
      (λ a. ret (executed stmt a)) (h ++ (wire_rows t.updateability rows ++ rest))
      (execution-IsResultSet stmt.dbh.server stmt.active_query_string msg h rest t rows stmt.state
        unprepared single m r a)
      refl

-- Take a statement that was not prepared, with a single query whose message can be built, an open socket that accepts it, and a response whose header
-- announces the rows of a result set that follow it. However the network cuts this response into segments, executing the statement sends the one
-- message and succeeds: PDO gets the number of rows and of columns that the header gives, and the cursor stands before the first of these rows.
pub run-pdo_4d_stmt_execute :
    (stmt : Stmt) (msg h rest : Bytes) (t : FourdResult) (rows : List Row) (w : World)
    → stmt.state ≡ none
    → is_multi_query (some stmt.active_query_string) ≡ false
    → statement_message 3 stmt.active_query_string stmt.dbh.server.preferred_image_types ≡ ok msg
    → IsResponse blank_result h (t, 0)
    → IsResultSet t rows
    → IsReady w (h ++ (wire_rows t.updateability rows ++ rest))
    → Ends w
        (record { value = (holding stmt t rows, true); rest = rest; sent = msg ∷ [] })
        (run (pdo_4d_stmt_execute stmt) w)
run-pdo_4d_stmt_execute stmt msg h rest t rows w unprepared single m r a ready =
    run-serve (pdo_4d_stmt_execute stmt) w (h ++ (wire_rows t.updateability rows ++ rest)) ready
      (pdo_4d_stmt_execute-IsResultSet stmt msg h rest t rows unprepared single m r a)
