-- ===== src/Session/Fetch.antt =====
-- `__fetch_result` and `_fetch_result`: the next rows of a result that the server still holds.
use pdo_4d.Base.{
  ℕ, ◌+◌, ◌-◌, ◌*◌, ◌%◌, ◌^◌, Bool, true, false, Option, none, some, List, length, ltb, leb,
  if◌then◌else◌, snprintf,
}
use pdo_4d.Connection.{Element, Fourd, FourdResult, blank_result, error_string_length}
use pdo_4d.Proc.{Proc, ret, fails, ◌>>=◌}
use pdo_4d.Receive.{socket_receiv_data}
use pdo_4d.Session.Exchange.{Reply, clear_atrr_cnx, socket_send, receiv_check}
use pdo_4d.Session.Message.{fetch_message}

abbrev pub u32 : ℕ → ℕ
u32 n = n % 2 ^ 32

-- The command with a result that is not null.
unfoldable pub fetch_rows : Fourd → ℕ → FourdResult → ℕ → ℕ → FourdResult → Proc Reply
fetch_rows cnx id_cmd res first_row last_row new =
    let cleared = clear_atrr_cnx cnx in
    socket_send cleared (fetch_message id_cmd res.id_statement 0 first_row last_row) >>= λ c.
    receiv_check true c new >>= λ r.
    if r.failed
    then ret r
    else (socket_receiv_data r.result >>= λ d.
        ret (record { cnx = r.cnx; result = d.0; failed = false }))

-- The first and the last row to ask for: 100 rows at most, and none behind `row_count`.
abbrev pub next_first : FourdResult → ℕ
next_first res = u32 (res.first_row + res.row_count_sent)

abbrev pub next_last : FourdResult → ℕ
next_last res =
    let last_row = u32 (res.first_row + res.row_count_sent + 99) in
    if leb res.row_count last_row then u32 (res.row_count + 2 ^ 32 - 1) else last_row

-- `_free_data_result` frees as many elements of the old table as the new page has: it runs past the end of a smaller table.
abbrev pub overruns : Option (List Element) → ℕ → Bool
overruns none n = false
overruns (some old) n = ltb (length old) n

-- The new rows take the place of the old ones, which are freed. The new result shares the columns of the old one; that a response gives types
-- or names without a number of columns, and so writes over them, is left aside. `id_cmd` is not looked at: the command has the number 123.
unfoldable pub fetch_result : Fourd → FourdResult → Proc Reply
unfolding fetch_rows
fetch_result cnx res =
    let first_row = next_first res in
    let last_row = next_last res in
    let sent = u32 (last_row + 2 ^ 32 - first_row + 1) in
    let new = record blank_result {
      first_row = first_row;
      row_count_sent = sent;
      nb_column = res.nb_column;
      columns = res.columns;
    } in
    fetch_rows (clear_atrr_cnx cnx) 123 res first_row last_row new >>= λ r.
    if r.failed
    then ret (record { cnx = r.cnx; result = res; failed = true })
    else if overruns res.elmt (u32 (r.result.nb_column * r.result.row_count_sent))
    then fails
    else ret (record {
      cnx = r.cnx;
      result = record res {
        elmt = r.result.elmt;
        first_row = first_row;
        row_count_sent = sent;
        error_code = r.result.error_code;
        error_string = snprintf error_string_length r.result.error_string;
        status = r.result.status;
      };
      failed = false;
    })
