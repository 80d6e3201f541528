-- ===== src/Session/Served/Further.antt =====
-- The next row of a result that the server still holds, as a whole exchange.
use pdo_4d.Base.{
  ℕ, ◌+◌, ◌-◌, ◌*◌, ◌^◌, ◌<◌, ◌≡◌, refl, ap, true, false, some, List, [], ◌∷◌, ◌++◌, snprintf,
  Bytes, length,
}
use pdo_4d.Connection.{Fourd, FourdResult, blank_result, error_string_length}
use pdo_4d.Proc.Refine.{serve, also_sent}
use pdo_4d.Proc.Yields.{Yields-bind, Yields-ret, serve-bind}
use pdo_4d.Receive.{socket_receiv_data, column_types_of}
use pdo_4d.Receive.Rows.{socket_receiv_data-wire_rows}
use pdo_4d.Receive.Wire.{Row, AreRows, wire_rows, table}
use pdo_4d.Session.Exchange.{Reply, reply_of, clear_atrr_cnx, socket_send, receiv_check}
use pdo_4d.Session.Fetch.{u32, fetch_rows, next_first, next_last, overruns, fetch_result}
use pdo_4d.Session.Message.{fetch_message}
use pdo_4d.Session.Served.{IsResponse, receiv_check-IsResponse}

-- The rows behind a response are those that it announces.
pub record IsPage (t : FourdResult) (rows : List Row) : Type 0 where
  pub typed : AreRows (column_types_of t) rows
  pub sent : t.row_count_sent ≡ length rows
  pub whole : length (table rows) ≡ t.nb_column * t.row_count_sent
  pub small : t.nb_column * t.row_count_sent < 2 ^ 32

-- The result that the response is read into, and how many rows are asked for.
abbrev pub asked_rows : FourdResult → ℕ
asked_rows res = u32 (next_last res + 2 ^ 32 - next_first res + 1)

abbrev pub new_result : FourdResult → FourdResult
new_result res = record blank_result {
  first_row = next_first res;
  row_count_sent = asked_rows res;
  nb_column = res.nb_column;
  columns = res.columns;
}

abbrev pub request_of : FourdResult → Bytes
request_of res = fetch_message 123 res.id_statement 0 (next_first res) (next_last res)

-- The reply to a request of rows, and the one that the caller gets.
abbrev page_reply : Fourd → FourdResult → List Row → Reply
page_reply cnx t rows = record {
  cnx = (reply_of (clear_atrr_cnx (clear_atrr_cnx cnx)) (t, 0)).cnx;
  result = record t { elmt = some (table rows) };
  failed = false;
}

abbrev pub further_reply : Fourd → FourdResult → FourdResult → List Row → Reply
further_reply cnx res t rows = record {
  cnx = (reply_of (clear_atrr_cnx (clear_atrr_cnx cnx)) (t, 0)).cnx;
  result = record res {
    elmt = some (table rows);
    first_row = next_first res;
    row_count_sent = asked_rows res;
    error_code = t.error_code;
    error_string = snprintf error_string_length t.error_string;
    status = t.status;
  };
  failed = false;
}

fetch_rows-IsPage :
    (cnx : Fourd) (res : FourdResult) (h rest : Bytes) (t : FourdResult) (rows : List Row)
    → IsResponse (new_result res) h (t, 0)
    → IsPage t rows
    → serve
        (fetch_rows (clear_atrr_cnx cnx) 123 res (next_first res) (next_last res) (new_result res))
        (h ++ (wire_rows t.updateability rows ++ rest))
      ≡ some (record { value = page_reply cnx t rows; rest = rest; sent = request_of res ∷ [] })
unfolding fetch_rows socket_send serve
fetch_rows-IsPage cnx res h rest t rows r p =
    let c : Fourd = clear_atrr_cnx (clear_atrr_cnx cnx) in
    let bs : Bytes = wire_rows t.updateability rows ++ rest in
    ap (also_sent (request_of res)) (
      Yields-bind (receiv_check true c (new_result res)) _ (h ++ bs)
        (receiv_check-IsResponse true c (new_result res) h bs (t, 0) r refl)
        (Yields-bind (socket_receiv_data t) _ bs
          (socket_receiv_data-wire_rows t rows rest p.typed p.sent p.whole p.small)
          (Yields-ret (page_reply cnx t rows) rest)))

pub fetch_result-IsPage :
    (cnx : Fourd) (res : FourdResult) (h rest : Bytes) (t : FourdResult) (rows : List Row)
    → IsResponse (new_result res) h (t, 0)
    → IsPage t rows
    → overruns res.elmt (u32 (t.nb_column * t.row_count_sent)) ≡ false
    → serve (fetch_result cnx res) (h ++ (wire_rows t.updateability rows ++ rest))
      ≡ some
          (record { value = further_reply cnx res t rows; rest = rest; sent = request_of res ∷ [] })
unfolding fetch_result
fetch_result-IsPage cnx res h rest t rows r p room =
    serve-bind
      (fetch_rows (clear_atrr_cnx cnx) 123 res (next_first res) (next_last res) (new_result res)) _
      (h ++ (wire_rows t.updateability rows ++ rest)) (fetch_rows-IsPage cnx res h rest t rows r p)
      (rw room (Yields-ret (further_reply cnx res t rows) rest))
