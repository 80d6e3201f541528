-- ===== src/Driver/Lifecycle/Reached.antt =====
-- What holds of a handle in every state that it reaches.
use pdo_4d.Base.{
  ℕ, ◌≡◌, inl, refl, Bool, false, Option, none, some, [], ◌∷◌, ◌==◌, Bytes, codes, WhenOk-eq,
}
use pdo_4d.Client.Connect.{fourd_init, fourd_connect}
use pdo_4d.Client.Linked.{fourd_connect-Linked}
use pdo_4d.Connection.{Fourd}
use pdo_4d.Driver.{Dbh, pdo_4d_error}
use pdo_4d.Driver.Handle.{
  Source, or_else, configure_image_types, configured, fourd_handle_doer, fourd_handle_begin,
  fourd_handle_commit, fourd_handle_rollback, fourd_handle_preparer, pdo_4d_handle_factory,
}
use pdo_4d.Driver.Statement.{
  pdo_4d_stmt_execute, pdo_4d_stmt_fetch, pdo_4d_stmt_get_col, pdo_4d_stmt_cursor_closer,
}
use pdo_4d.Driver.Lifecycle.{Step, Reachable}
use pdo_4d.Proc.{Proc, World}
use pdo_4d.Proc.Keeps.{Keeps, Keeps-bind, Keeps-if, run-Keeps, opened_and_closed}
use pdo_4d.Session.Linked.{Linked}
use pdo_4d.Driver.Lifecycle.Invariant.{
  IsHandle, MadeRight, fourd_handle_doer-IsHandle, succeeds-IsHandle, set_attribute-IsHandle,
  preparer-IsHandle, pdo_4d_error-IsHandle,
}
use pdo_4d.Driver.Lifecycle.Statements.{
  IsStmt, execute-IsStmt, fetch_from-IsStmt, close_from-IsStmt, col_from-IsStmt,
}

-- A new connection is not connected, with any setting for images.
configure_connected :
    (cnx : Fourd) (types : Option Bytes)
    → (configure_image_types cnx types).connected ≡ cnx.connected
configure_connected cnx none = refl
configure_connected cnx (some []) = refl
configure_connected cnx (some (c ∷ cs)) = refl

-- The handle that PDO gets, with or without a connection.
new_dbh : Source → Fourd × ℕ → Dbh
new_dbh source c = record {
  server = c.0;
  einfo = record { errcode = 0; errmsg = none };
  charset = source.charset;
  error_code = codes "00000";
  has_methods = false;
  thrown = false;
}

factory-IsHandle :
    (connect : Fourd → Proc (Fourd × ℕ)) (o : Bool) (source : Source)
    → Keeps (λ o' t. IsHandle o' t.0) o (pdo_4d_handle_factory connect source)
unfolding pdo_4d_handle_factory fourd_init pdo_4d_error new_dbh
factory-IsHandle connect o source =
    Keeps-bind (λ o' r. Linked o' r.0) (λ o' t. IsHandle o' t.0) o
      (fourd_connect connect (configured source) (or_else source.username source.user)
        (some (or_else source.passwd source.password)))
      _
      (fourd_connect-Linked connect o (configured source) (or_else source.username source.user)
        (some (or_else source.passwd source.password))
        (λ e. absurd (
          opened_and_closed (configured source).connected e
            (configure_connected _ source.image_types))))
      λ o' c l.
        Keeps-if (λ o'' t. IsHandle o'' t.0) o' (c.1 == 0) _ _
          (λ e. record { linked = l; sqlstate = refl; message = inl refl })
          (λ e.
            let h = pdo_4d_error-IsHandle o' (new_dbh source c) l in
            record { linked = h.linked; sqlstate = h.sqlstate; message = h.message })

step-IsHandle :
    (d : Dbh) (w : World) (d' : Dbh) (w' : World)
    → IsHandle w.is_open d
    → Step d w d' w'
    → IsHandle w'.is_open d'
unfolding fourd_handle_begin fourd_handle_commit fourd_handle_rollback pdo_4d_stmt_fetch
    pdo_4d_stmt_get_col pdo_4d_stmt_cursor_closer
step-IsHandle d w d' w' h (Step.doer _ sql _ _ n _ ends) =
    run-Keeps (λ o t. IsHandle o t.0) (fourd_handle_doer d sql) w
      (fourd_handle_doer-IsHandle w.is_open d sql h) ends
step-IsHandle d w d' w' h (Step.begin _ _ _ b _ ends) =
    run-Keeps (λ o t. IsHandle o t.0) (fourd_handle_begin d) w
      (succeeds-IsHandle w.is_open d (codes "START") h) ends
step-IsHandle d w d' w' h (Step.commit _ _ _ b _ ends) =
    run-Keeps (λ o t. IsHandle o t.0) (fourd_handle_commit d) w
      (succeeds-IsHandle w.is_open d (codes "COMMIT") h) ends
step-IsHandle d w d' w' h (Step.rollback _ _ _ b _ ends) =
    run-Keeps (λ o t. IsHandle o t.0) (fourd_handle_rollback d) w
      (succeeds-IsHandle w.is_open d (codes "ROLLBACK") h) ends
step-IsHandle d w d' w' h (Step.set_attribute _ attr val _) =
    set_attribute-IsHandle w.is_open d attr val h
step-IsHandle d w d' w' h (Step.prepare parse _ sql _ s b five e) =
    WhenOk-eq (MadeRight w.is_open) (fourd_handle_preparer parse d sql)
      (preparer-IsHandle parse w.is_open d sql five h) e
step-IsHandle d w d' w' h (Step.execute s _ s' b _ ends) =
    run-Keeps (λ o t. IsStmt o t.0) (pdo_4d_stmt_execute s) w (execute-IsStmt w.is_open s h) ends
step-IsHandle d w d' w' h (Step.fetch s _ s' b _ ends) =
    run-Keeps (λ o t. IsStmt o t.0) (pdo_4d_stmt_fetch s) w
      (fetch_from-IsStmt w.is_open s s.result h) ends
step-IsHandle d w d' w' h (Step.get_col mb_convert_encoding format_lf s colno _ s' col e) =
    WhenOk-eq (λ t. IsStmt w.is_open t.0)
      (pdo_4d_stmt_get_col mb_convert_encoding format_lf s colno)
      (col_from-IsStmt mb_convert_encoding format_lf w.is_open s colno s.result h) e
step-IsHandle d w d' w' h (Step.close_cursor s _ s' _ ends) =
    run-Keeps IsStmt (pdo_4d_stmt_cursor_closer s) w (close_from-IsStmt w.is_open s s.result h) ends

-- In every state of a handle that PDO can reach, through any calls of the methods of the handle and of its statements, in any order and
-- with any answers of the server, of the network and of the system: the connection counts as connected only while its
-- socket is open, the SQLSTATE has five characters, and the error info has a message whenever it has a code.
pub Reachable-IsHandle : (d : Dbh) (w : World) → Reachable d w → IsHandle w.is_open d
Reachable-IsHandle d w (Reachable.made connect source w0 _ b _ ends) =
    run-Keeps (λ o t. IsHandle o t.0) (pdo_4d_handle_factory connect source) w0
      (factory-IsHandle connect w0.is_open source) ends
Reachable-IsHandle d w (Reachable.later d0 w0 _ _ r s) =
    step-IsHandle d0 w0 d w (Reachable-IsHandle d0 w0 r) s
