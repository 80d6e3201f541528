-- ===== src/Client/Cursor.antt =====
-- The cursor of a result: `fourd_query`, `fourd_next_row` and `fourd_close_statement`.
pub mod Held
pub mod Window
pub mod Further
use pdo_4d.Base.{
  ℕ, ◌+◌, ◌-◌, ◌^◌, ◌%◌, Bool, true, false, Option, none, some, ltb, leb, if◌then◌else◌, Bytes,
}
use pdo_4d.Connection.{Fourd, FourdResult, blank_result}
use pdo_4d.Proc.{Proc, ret, ◌>>=◌}
use pdo_4d.Session.Exchange.{Reply}
use pdo_4d.Session.Query.{query}
use pdo_4d.Session.Fetch.{u32, fetch_result}
use pdo_4d.Session.Control.{close_statement}

-- `numRow` is an `unsigned int`: -1 is its greatest value.
abbrev pub before_first : ℕ
before_first = 4294967295

-- A cursor: the connection, and the result if there is one.
pub record Answer : Type 0 where
  pub cnx : Fourd
  pub result : Option FourdResult

abbrev pub as_cursor : Reply → Answer
as_cursor r =
    if r.failed
    then record { cnx = r.cnx; result = none }
    else record { cnx = r.cnx; result = some (record r.result { num_row = before_first }) }

unfoldable pub fourd_query : Fourd → Bytes → Proc Answer
fourd_query cnx request =
    query cnx 3 request blank_result cnx.preferred_image_types >>= λ r. ret (as_cursor r)

abbrev pub advance : FourdResult → FourdResult
advance res = record res { num_row = u32 (res.num_row + 1) }

-- The row stands behind the rows that were received.
abbrev pub is_behind : FourdResult → Bool
is_behind res = ltb (u32 (res.first_row + res.row_count_sent + 2 ^ 32 - 1)) res.num_row

-- `failed` is that the function returned 0.
unfoldable pub fourd_next_row : Fourd → FourdResult → Proc Reply
fourd_next_row cnx res =
    if leb (advance res).row_count (advance res).num_row
    then ret (record { cnx = cnx; result = advance res; failed = true })
    else if is_behind (advance res)
    then fetch_result cnx (advance res)
    else ret (record { cnx = cnx; result = advance res; failed = false })

unfoldable pub fourd_close_statement : Fourd → FourdResult → Proc Reply
fourd_close_statement cnx res = close_statement cnx res 7
