-- ===== src/Driver/Lifecycle.antt =====
-- The life of a handle: what its methods and those of its statements make of it, one after the other.
pub mod Invariant
pub mod Statements
pub mod Reached
pub mod Ending
use pdo_4d.Base.{ℕ, Bool, Option, ◌≡◌, ℤ, Bytes, length, ok}
use pdo_4d.Connection.{Fourd}
use pdo_4d.Driver.{Dbh, Stmt}
use pdo_4d.Driver.Handle.{
  Attr, Parsed, not_parsed, Source, fourd_handle_doer, fourd_handle_begin, fourd_handle_commit,
  fourd_handle_rollback, fourd_handle_preparer, pdo_4d_set_attribute, pdo_4d_handle_factory,
}
use pdo_4d.Driver.Statement.{
  pdo_4d_stmt_execute, pdo_4d_stmt_fetch, pdo_4d_stmt_get_col, pdo_4d_stmt_cursor_closer,
}
use pdo_4d.Proc.{Proc, World, run}
use pdo_4d.Proc.Keeps.{Finishes}

-- A call of a method that ended, with the handle and the world before and behind it. A statement is any one that was prepared
-- on the handle; `pdo_4d_stmt_dtor` does what the closing of the cursor does. PDO's parser of placeholders gives an SQLSTATE of five
-- characters.
pub data Step : Dbh → World → Dbh → World → Type 0 where
  doer :
      (d : Dbh) (sql : Bytes) (w : World) (d' : Dbh) (n : ℤ) (w' : World)
      → Finishes (run (fourd_handle_doer d sql) w) (d', n) w'
      → Step d w d' w'
  begin :
      (d : Dbh) (w : World) (d' : Dbh) (b : Bool) (w' : World)
      → Finishes (run (fourd_handle_begin d) w) (d', b) w'
      → Step d w d' w'
  commit :
      (d : Dbh) (w : World) (d' : Dbh) (b : Bool) (w' : World)
      → Finishes (run (fourd_handle_commit d) w) (d', b) w'
      → Step d w d' w'
  rollback :
      (d : Dbh) (w : World) (d' : Dbh) (b : Bool) (w' : World)
      → Finishes (run (fourd_handle_rollback d) w) (d', b) w'
      → Step d w d' w'
  set_attribute :
      (d : Dbh) (attr : Attr) (val : Bytes) (w : World)
      → Step d w (pdo_4d_set_attribute d attr val).0 w
  prepare :
      (parse : Bytes → Parsed) (d : Dbh) (sql : Bytes) (w : World) (s : Stmt) (b : Bool)
      → ((state : Bytes) → parse sql ≡ not_parsed state → length state ≡ 5)
      → fourd_handle_preparer parse d sql ≡ ok (s, b)
      → Step d w s.dbh w
  execute :
      (s : Stmt) (w : World) (s' : Stmt) (b : Bool) (w' : World)
      → Finishes (run (pdo_4d_stmt_execute s) w) (s', b) w'
      → Step s.dbh w s'.dbh w'
  fetch :
      (s : Stmt) (w : World) (s' : Stmt) (b : Bool) (w' : World)
      → Finishes (run (pdo_4d_stmt_fetch s) w) (s', b) w'
      → Step s.dbh w s'.dbh w'
  get_col :
      (mb_convert_encoding : Option Bytes → Bytes → Bytes → Option Bytes)
      (format_lf : Bytes → Bytes) (s : Stmt) (colno : ℕ) (w : World) (s' : Stmt)
      (col : Option (Option Bytes))
      → pdo_4d_stmt_get_col mb_convert_encoding format_lf s colno ≡ ok (s', col)
      → Step s.dbh w s'.dbh w
  close_cursor :
      (s : Stmt) (w : World) (s' : Stmt) (w' : World)
      → Finishes (run (pdo_4d_stmt_cursor_closer s) w) s' w'
      → Step s.dbh w s'.dbh w'

-- The states of a handle that its source gave, whether the connection was made or not.
pub data Reachable : Dbh → World → Type 0 where
  made :
      (connect : Fourd → Proc (Fourd × ℕ)) (source : Source) (w : World) (d : Dbh) (b : Bool)
      (w' : World)
      → Finishes (run (pdo_4d_handle_factory connect source) w) (d, b) w'
      → Reachable d w'
  later :
      (d : Dbh) (w : World) (d' : Dbh) (w' : World)
      → Reachable d w
      → Step d w d' w'
      → Reachable d' w'
