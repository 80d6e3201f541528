-- ===== src/Driver/Statement/Info.antt =====
-- What the driver tells about a statement: `pdo_4d_stmt_col_meta`, the attributes, the destructor and `pdo_4d_fetch_error_func`.
use pdo_4d.Base.{
  ℕ, Bool, true, false, Option, none, some, List, [], ◌∷◌, leb, ◌==◌, if◌then◌else◌, Bytes, codes,
  Outcome, ok, ◌>>=◌,
}
use pdo_4d.Client.Field.{fourd_get_column_type}
use pdo_4d.Driver.{ErrorInfo, Dbh, Stmt}
use pdo_4d.Driver.Handle.{Attr, attr_charset}
use pdo_4d.Driver.Statement.{is_binary, pdo_4d_stmt_cursor_closer}
use pdo_4d.FourdType.{string_from_type}
use pdo_4d.Proc.{Proc}

-- The array of a column: `flags` and `native_type`.
pub record ColMeta : Type 0 where
  pub native_type : Bytes
  pub flags : List Bytes

-- `none` for FAILURE.
unfoldable pub pdo_4d_stmt_col_meta : Stmt → ℕ → Outcome (Option ColMeta)
pdo_4d_stmt_col_meta stmt colno = elim stmt.result [
  | none ↦ ok none
  | some res ↦
      if leb stmt.column_count colno
      then ok none
      else (fourd_get_column_type res colno >>= λ type. ok (
          some (record {
            native_type = string_from_type type;
            flags = if is_binary type then codes "blob" ∷ [] else [];
          })))
]

unfoldable pub pdo_4d_stmt_set_attribute : Stmt → Attr → Bytes → Stmt × Bool
pdo_4d_stmt_set_attribute stmt attr_charset val = (record stmt { charset = val }, true)
pdo_4d_stmt_set_attribute stmt _ val = (stmt, false)

unfoldable pub pdo_4d_stmt_get_attribute : Stmt → Attr → Option Bytes
pdo_4d_stmt_get_attribute stmt attr_charset = some stmt.charset
pdo_4d_stmt_get_attribute stmt _ = none

-- The statement is closed on the server, and freed.
unfoldable pub pdo_4d_stmt_dtor : Stmt → Proc Stmt
pdo_4d_stmt_dtor stmt = pdo_4d_stmt_cursor_closer stmt

-- What is added to PDO's error array: the code and the message of the statement, or of the handle.
abbrev error_info : Dbh → Option Stmt → ErrorInfo
error_info dbh none = dbh.einfo
error_info dbh (some stmt) = stmt.einfo

unfoldable pub pdo_4d_fetch_error_func : Dbh → Option Stmt → Option (ℕ × Option Bytes)
pdo_4d_fetch_error_func dbh stmt =
    let einfo = error_info dbh stmt in
    if einfo.errcode == 0 then none else some (einfo.errcode, einfo.errmsg)
