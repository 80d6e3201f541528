-- ===== src/Driver.antt =====
-- 4d_driver.c and 4d_statement.c: the driver's side of a PDO handle and of a PDO statement.
pub mod Handle
pub mod Statement
pub mod Lifecycle
use pdo_4d.Base.{
  ℕ, ◌^◌, Bool, true, false, Option, none, some, List, [], ◌==◌, if◌then◌else◌, ℤ, to_unsigned,
  Bytes, codes,
}
use pdo_4d.Connection.{Fourd, FourdResult, FourdStatement}
use pdo_4d.SqlState.{fourd_sqlstate}

-- pdo_4d_error_info; `errcode` is an `unsigned int`.
pub record ErrorInfo : Type 0 where
  pub errcode : ℕ
  pub errmsg : Option Bytes

-- `pdo_dbh_t` and `pdo_4d_db_handle`, as far as the driver uses them: `error_code` is the SQLSTATE, `has_methods` that the methods are set, and
-- `thrown` that an exception was raised.
pub record Dbh : Type 0 where
  pub server : Fourd
  pub einfo : ErrorInfo
  pub charset : Bytes
  pub error_code : Bytes
  pub has_methods : Bool
  pub thrown : Bool

-- `pdo_stmt_t` and `pdo_4d_stmt`. `names` holds the columns' names where they were described.
pub record Stmt : Type 0 where
  pub dbh : Dbh
  pub state : Option FourdStatement
  pub result : Option FourdResult
  pub einfo : ErrorInfo
  pub charset : Bytes
  pub error_code : Bytes
  pub active_query_string : Bytes
  pub row_count : ℤ
  pub column_count : ℕ
  pub names : List (Option Bytes)

-- What `_pdo_4d_error` leaves in the error info and in the SQLSTATE, and whether it raised an exception. The
-- zero byte that it writes behind the SQLSTATE goes to another place of PHP's own structure.
pub record Reported : Type 0 where
  pub einfo : ErrorInfo
  pub error_code : Bytes
  pub throws : Bool

unfoldable pub pdo_4d_error_info : Bool → Fourd → Reported
pdo_4d_error_info has_methods server =
    let errcode = to_unsigned (2 ^ 32) server.error_code in
    if errcode == 0
    then record {
      einfo = record { errcode = errcode; errmsg = none };
      error_code = codes "00000";
      throws = false;
    }
    else record {
      einfo = record { errcode = errcode; errmsg = some server.error_string };
      error_code = fourd_sqlstate server;
      throws = if has_methods then false else true;
    }

-- pdo_4d_error(dbh)
unfoldable pub pdo_4d_error : Dbh → Dbh
unfolding pdo_4d_error_info
pdo_4d_error dbh =
    let r = pdo_4d_error_info dbh.has_methods dbh.server in
    record dbh {
      einfo = r.einfo;
      error_code = r.error_code;
      thrown = if r.throws then true else dbh.thrown;
    }

-- pdo_4d_error_stmt(stmt)
unfoldable pub pdo_4d_error_stmt : Stmt → Stmt
unfolding pdo_4d_error_info
pdo_4d_error_stmt stmt =
    let r = pdo_4d_error_info stmt.dbh.has_methods stmt.dbh.server in
    record stmt {
      einfo = r.einfo;
      error_code = r.error_code;
      dbh = record (stmt.dbh) { thrown = if r.throws then true else stmt.dbh.thrown };
    }
