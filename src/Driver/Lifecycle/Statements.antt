-- ===== src/Driver/Lifecycle/Statements.antt =====
-- The methods of a statement keep what holds of its handle.
use pdo_4d.Base.{
  ℕ, ◌≡◌, inl, inr, sym, ◌∙◌, Bool, true, Bool-cases, Option, none, some, Option-cases, leb, ltb_ℤ,
  eqb_ℤ, if◌then◌else◌, pos, negsuc, Bytes, WhenOk, WhenOk-bind, WhenOk-if,
}
use pdo_4d.Client.Connect.{fourd_errno}
use pdo_4d.Client.Cursor.{Answer, fourd_next_row, fourd_close_statement}
use pdo_4d.Client.Field.{fourd_field, fourd_field_to_string, fourd_get_column_type}
use pdo_4d.Client.Field.Same.{
  IsSame, IsSame-after, fourd_field-IsSame, fourd_field_to_string-IsSame,
}
use pdo_4d.Client.Linked.{
  LinkedAnswer, fourd_query-Linked, fourd_exec_statement-Linked, fourd_next_row-Linked,
  fourd_close_statement-Linked,
}
use pdo_4d.Connection.{Fourd, FourdResult, FourdStatement}
use pdo_4d.Driver.{Stmt, pdo_4d_error_stmt}
use pdo_4d.Driver.Statement
use pdo_4d.Driver.Statement.{
  with_server, counts, execution, not_fetched, fetch_from, col_from, close_from,
  pdo_4d_stmt_execute, pdo_4d_stmt_fetch, is_binary, octets, get_col, pdo_4d_stmt_get_col,
  pdo_4d_stmt_cursor_closer,
}
use pdo_4d.Proc.{ret}
use pdo_4d.Proc.Keeps.{Keeps, Keeps-bind}
use pdo_4d.Session.Exchange.{Reply}
use pdo_4d.Session.Linked.{Linked, LinkedReply}
use pdo_4d.Driver.Lifecycle.Invariant.{IsHandle, with_server-IsHandle}

-- A statement whose handle is right.
abbrev pub IsStmt : Bool → Stmt → Type 0
IsStmt o s = IsHandle o s.dbh

with_server-IsStmt :
    (o o' : Bool) (s : Stmt) (cnx : Fourd)
    → IsStmt o s
    → Linked o' cnx
    → IsStmt o' (with_server s cnx)
with_server-IsStmt o o' s cnx h l = with_server-IsHandle o o' s.dbh cnx h l

-- A report on a statement changes nothing else of its handle than whether an exception was raised.
reported-IsStmt : (o : Bool) (s : Stmt) → IsStmt o s → IsStmt o (pdo_4d_error_stmt s)
unfolding pdo_4d_error_stmt
reported-IsStmt o s h = record { linked = h.linked; sqlstate = h.sqlstate; message = h.message }

-- The counts of a statement are no part of its handle.
counted-IsStmt : (o : Bool) (s : Stmt) (res : FourdResult) → IsStmt o s → IsStmt o (counts s res)
counted-IsStmt o s res h = elim (Bool-cases (eqb_ℤ s.dbh.server.updated_row (negsuc 0))) [
  | inl e ↦ rw e h
  | inr e ↦ rw e h
]

execution-Linked :
    (o : Bool) (server : Fourd) (request : Bytes) (state : Option FourdStatement)
    → Linked o server
    → Keeps LinkedAnswer o (execution server request state)
execution-Linked o server request none l = fourd_query-Linked o server request l
execution-Linked o server request (some state) l = fourd_exec_statement-Linked o server state l

-- The statement behind the answer to an execution.
executed_stmt-IsStmt :
    (o o' : Bool) (s : Stmt) (a : Answer)
    → IsStmt o s
    → LinkedAnswer o' a
    → IsStmt o' (Statement.executed s a).0
executed_stmt-IsStmt o o' s a h l =
    let moved = with_server-IsStmt o o' s a.cnx h l in
    elim (Option-cases a.result) [
      | inl e ↦ rw e (reported-IsStmt o' (record (with_server s a.cnx) { result = none }) moved)
      | inr (res, e) ↦
          rw e (counted-IsStmt o' (record (with_server s a.cnx) { result = some res }) res moved)
    ]

pub execute-IsStmt :
    (o : Bool) (s : Stmt) → IsStmt o s → Keeps (λ o' t. IsStmt o' t.0) o (pdo_4d_stmt_execute s)
unfolding pdo_4d_stmt_execute
execute-IsStmt o s h =
    Keeps-bind LinkedAnswer (λ o' t. IsStmt o' t.0) o
      (execution s.dbh.server s.active_query_string s.state) (λ a. ret (Statement.executed s a))
      (execution-Linked o s.dbh.server s.active_query_string s.state h.linked)
      λ o' a l. executed_stmt-IsStmt o o' s a h l

not_fetched-IsStmt : (o : Bool) (s : Stmt) → IsStmt o s → IsStmt o (not_fetched s).0
not_fetched-IsStmt o s h = elim (Bool-cases (ltb_ℤ (pos 0) (fourd_errno s.dbh.server))) [
  | inl e ↦ rw e (reported-IsStmt o s h)
  | inr e ↦ rw e h
]

-- The statement behind a call of `fourd_next_row`.
moved : Stmt → Reply → Stmt
moved s r = record (with_server s r.cnx) { result = some r.result }

moved-IsStmt :
    (o o' : Bool) (s : Stmt) (r : Reply)
    → IsStmt o s
    → LinkedReply o' r
    → IsStmt o' (if r.failed then not_fetched (moved s r) else (moved s r, true)).0
unfolding moved
moved-IsStmt o o' s r h l =
    let k = with_server-IsStmt o o' s r.cnx h l in
    elim (Bool-cases r.failed) [
      | inl e ↦ rw e (not_fetched-IsStmt o' (moved s r) k)
      | inr e ↦ rw e k
    ]

pub fetch_from-IsStmt :
    (o : Bool) (s : Stmt) (held : Option FourdResult)
    → IsStmt o s
    → Keeps (λ o' t. IsStmt o' t.0) o (fetch_from s held)
unfolding moved
fetch_from-IsStmt o s none h = h
fetch_from-IsStmt o s (some res) h =
    Keeps-bind LinkedReply (λ o' t. IsStmt o' t.0) o (fourd_next_row s.dbh.server res)
      (λ r. ret (if r.failed then not_fetched (moved s r) else (moved s r, true)))
      (fourd_next_row-Linked o s.dbh.server res h.linked) λ o' r l. moved-IsStmt o o' s r h l

pub close_from-IsStmt :
    (o : Bool) (s : Stmt) (held : Option FourdResult)
    → IsStmt o s
    → Keeps IsStmt o (close_from s held)
close_from-IsStmt o s none h = h
close_from-IsStmt o s (some res) h =
    Keeps-bind LinkedReply IsStmt o (fourd_close_statement s.dbh.server res)
      (λ r. ret (record (with_server s r.cnx) { result = none }))
      (fourd_close_statement-Linked o s.dbh.server res)
      λ o' r l. with_server-IsStmt o o' s r.cnx h l

-- The connection behind the reading of a column.
get_col-IsSame :
    (mb_convert_encoding : Option Bytes → Bytes → Bytes → Option Bytes) (format_lf : Bytes → Bytes)
    (s : Stmt) (res : FourdResult) (colno : ℕ)
    → WhenOk (IsSame s.dbh.server) (get_col mb_convert_encoding format_lf s res colno)
unfolding get_col
get_col-IsSame mb_convert_encoding format_lf s res colno =
    WhenOk-bind (IsSame s.dbh.server) (IsSame s.dbh.server)
      (fourd_field_to_string format_lf s.dbh.server res colno) _
      (fourd_field_to_string-IsSame s.dbh.server res colno format_lf)
      λ converted same. IsSame-after s.dbh.server (fourd_get_column_type res colno) _ λ type.
        WhenOk-if (IsSame s.dbh.server) (is_binary type) _ _
          (WhenOk-bind (IsSame converted.0) (IsSame s.dbh.server)
            (fourd_field converted.0 res colno) _ (fourd_field-IsSame converted.0 res colno)
            λ field still. IsSame-after s.dbh.server (octets field.1) _ (λ bytes. still ∙ same))
          same

-- A connection that differs in its error only.
same-Linked :
    (o : Bool) (cnx cnx' : Fourd) → cnx'.connected ≡ cnx.connected → Linked o cnx → Linked o cnx'
same-Linked o cnx cnx' same l = λ e. l (sym same ∙ e)

pub col_from-IsStmt :
    (mb_convert_encoding : Option Bytes → Bytes → Bytes → Option Bytes) (format_lf : Bytes → Bytes)
    (o : Bool) (s : Stmt) (colno : ℕ) (held : Option FourdResult)
    → IsStmt o s
    → WhenOk (λ t. IsStmt o t.0) (col_from mb_convert_encoding format_lf s colno held)
col_from-IsStmt mb_convert_encoding format_lf o s colno none h = h
col_from-IsStmt mb_convert_encoding format_lf o s colno (some res) h =
    WhenOk-if (λ t. IsStmt o t.0) (leb s.column_count colno) _ _ h
      (WhenOk-bind (IsSame s.dbh.server) (λ t. IsStmt o t.0)
        (get_col mb_convert_encoding format_lf s res colno) _
        (get_col-IsSame mb_convert_encoding format_lf s res colno)
        λ r same. with_server-IsStmt o o s r.0 h (same-Linked o s.dbh.server r.0 same h.linked))
