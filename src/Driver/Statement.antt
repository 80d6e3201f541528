-- ===== src/Driver/Statement.antt =====
-- 4d_statement.c: `pdo_4d_stmt_execute`, `_fetch`, `_describe`, `_get_col` and `_cursor_closer`. `Param` is
-- `_param_hook`, `Info` the rest; `Rows`, `Column` and `Selected` follow fetches, a column, and a whole query.
pub mod Param
pub mod Info
pub mod Executed
pub mod Rows
pub mod Whole
pub mod Column
pub mod Sent
pub mod Selected
use pdo_4d.Base.{
  ℕ, zero, suc, ◌+◌, ◌/◌, ◌%◌, ◌^◌, Bool, true, false, Option, none, some, List, [], ◌∷◌, ltb, leb,
  ◌==◌, if◌then◌else◌, eqb_ℤ, ltb_ℤ, pos_part, ℤ, pos, negsuc, Bytes, codes, get_or, length, take,
  le_bytes, to_unsigned, Outcome, ok, fault, ◌>>=◌,
}
use pdo_4d.Client.Access.{fourd_num_columns}
use pdo_4d.Client.Connect.{fourd_errno}
use pdo_4d.Client.Cursor.{Answer, fourd_query, fourd_next_row, fourd_close_statement}
use pdo_4d.Client.Field.{
  Output, untouched, null_text, text, fourd_field, fourd_field_to_string, fourd_get_column_name,
  fourd_get_column_type,
}
use pdo_4d.Client.Statement.{fourd_bind_param, fourd_exec_statement}
use pdo_4d.Connection.{
  Fourd, FourdResult, FourdStatement, Value, null_pointer, fixed, timestamp, float, string, blob,
  image,
}
use pdo_4d.Driver.{Dbh, Stmt, pdo_4d_error_stmt}
use pdo_4d.FourdType.{FourdType, vk_string, vk_blob, vk_image, vk_long, vk_real}
use pdo_4d.Proc.{Proc, ret}
use pdo_4d.Proc
use pdo_4d.Session.Exchange.{Reply}

abbrev pub with_server : Stmt → Fourd → Stmt
with_server stmt cnx = record stmt { dbh = record (stmt.dbh) { server = cnx } }

-- The counts of a statement that gave a result. A negative number of columns admits no column, and is kept as 0.
abbrev pub counts : Stmt → FourdResult → Stmt
counts stmt res =
    if eqb_ℤ stmt.dbh.server.updated_row (negsuc 0)
    then record stmt {
      row_count = pos res.row_count;
      column_count = pos_part (fourd_num_columns res);
    }
    else record stmt { row_count = stmt.dbh.server.updated_row }

abbrev pub executed : Stmt → Answer → Stmt × Bool
executed stmt a = elim a.result [
  | none ↦ (pdo_4d_error_stmt (record (with_server stmt a.cnx) { result = none }), false)
  | some res ↦ (counts (record (with_server stmt a.cnx) { result = some res }) res, true)
]

-- The two branches, on whether the statement was prepared.
abbrev pub execution : Fourd → Bytes → Option FourdStatement → Proc Answer
execution server request none = fourd_query server request
execution server request (some state) = fourd_exec_statement server state

unfoldable pub pdo_4d_stmt_execute : Stmt → Proc (Stmt × Bool)
pdo_4d_stmt_execute stmt =
    Proc.◌>>=◌ (execution stmt.dbh.server stmt.active_query_string stmt.state)
      λ a. ret (executed stmt a)

-- `fourd_next_row` returned 0: the end of the rows, or an error.
abbrev pub not_fetched : Stmt → Stmt × Bool
not_fetched stmt =
    if ltb_ℤ (pos 0) (fourd_errno stmt.dbh.server)
    then (pdo_4d_error_stmt stmt, false)
    else (stmt, false)

-- The two branches, on whether there is a result.
abbrev pub fetch_from : Stmt → Option FourdResult → Proc (Stmt × Bool)
fetch_from stmt none = ret (record stmt { error_code = codes "HY000" }, false)
fetch_from stmt (some res) = Proc.◌>>=◌ (fourd_next_row stmt.dbh.server res) λ r.
    let moved : Stmt = record (with_server stmt r.cnx) { result = some r.result } in
    ret (if r.failed then not_fetched moved else (moved, true))

unfoldable pub pdo_4d_stmt_fetch : Stmt → Proc (Stmt × Bool)
pdo_4d_stmt_fetch stmt = fetch_from stmt stmt.result

-- The names of the columns from `i` on.
pub column_names : FourdResult → ℕ → ℕ → Outcome (List (Option Bytes))
column_names res zero i = ok []
column_names res (suc left) i = do
  name ← fourd_get_column_name res i
  names ← column_names res left (i + 1)
  ok (some name ∷ names)

-- All columns are described at once, unless the first one already has its name.
unfoldable pub pdo_4d_stmt_describe : Stmt → ℕ → Outcome (Stmt × Bool)
unfolding column_names
pdo_4d_stmt_describe stmt colno = elim stmt.result [
  | none ↦ ok (stmt, false)
  | some res ↦
      if leb stmt.column_count colno then ok (stmt, false) else elim (get_or stmt.names 0 none) [
        | some name ↦ ok (stmt, true)
        | none ↦ column_names res stmt.column_count 0 >>= λ names.
            ok (record stmt { names = names }, true)
      ]
]

-- `*ptr` behind `fourd_field_to_string`; PDO passes a null pointer in.
abbrev pub pointer : Output → Option Bytes
pointer (text s) = some s
pointer _ = none

-- The bytes of a blob or an image behind a pointer.
abbrev pub octets : Value → Outcome (Option Bytes)
octets null_pointer = ok none
octets (blob n bs) = if leb n (length bs) then ok (some (take n bs)) else fault
octets (image n bs) = if leb n (length bs) then ok (some (take n bs)) else fault
octets _ = fault

-- The columns whose bytes are handed out as they are.
abbrev pub is_binary : FourdType → Bool
is_binary vk_blob = true
is_binary vk_image = true
is_binary _ = false

-- The encoding that the bytes of a column of this type have.
abbrev pub encoding_of : FourdType → Bytes
encoding_of vk_string = codes "UTF-16LE"
encoding_of _ = codes "ISO-8859-1"

-- `mb_convert_encoding` is PHP's conversion, of a text to the first encoding from the second one. The connection, and what `*ptr` is.
unfoldable pub get_col :
    (Option Bytes → Bytes → Bytes → Option Bytes)
    → (Bytes → Bytes)
    → Stmt
    → FourdResult
    → ℕ
    → Outcome (Fourd × Option Bytes)
get_col mb_convert_encoding format_lf stmt res colno = do
  converted ← fourd_field_to_string format_lf stmt.dbh.server res colno
  type ← fourd_get_column_type res colno
  (if is_binary type
      then (fourd_field converted.0 res colno >>= λ field.
          octets field.1 >>= λ bytes. ok (field.0, bytes))
      else ok (
        converted.0,
        mb_convert_encoding (pointer converted.1.0) stmt.charset (encoding_of type),
      ))

abbrev pub col_from :
    (Option Bytes → Bytes → Bytes → Option Bytes)
    → (Bytes → Bytes)
    → Stmt
    → ℕ
    → Option FourdResult
    → Outcome (Stmt × Option (Option Bytes))
col_from mb_convert_encoding format_lf stmt colno none = ok (stmt, none)
col_from mb_convert_encoding format_lf stmt colno (some res) =
    if leb stmt.column_count colno
    then ok (stmt, none)
    else get_col mb_convert_encoding format_lf stmt res colno >>= λ r.
        ok (with_server stmt r.0, some r.1)

-- `none` where the function returned 0.
unfoldable pub pdo_4d_stmt_get_col :
    (Option Bytes → Bytes → Bytes → Option Bytes)
    → (Bytes → Bytes)
    → Stmt
    → ℕ
    → Outcome (Stmt × Option (Option Bytes))
unfolding get_col
pdo_4d_stmt_get_col mb_convert_encoding format_lf stmt colno =
    col_from mb_convert_encoding format_lf stmt colno stmt.result

abbrev pub close_from : Stmt → Option FourdResult → Proc Stmt
close_from stmt none = ret stmt
close_from stmt (some res) =
    Proc.◌>>=◌ (fourd_close_statement stmt.dbh.server res)
      λ r. ret (record (with_server stmt r.cnx) { result = none })

-- The server's answer is not looked at.
unfoldable pub pdo_4d_stmt_cursor_closer : Stmt → Proc Stmt
pdo_4d_stmt_cursor_closer stmt = close_from stmt stmt.result
