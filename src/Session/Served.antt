-- ===== src/Session/Served.antt =====
-- Whole exchanges with the server: a message, and the response in the byte stream.
pub mod Further
pub mod Params
use pdo_4d.Base.{
  ℕ, ◌<◌, ◌*◌, ◌^◌, ◌≡◌, refl, ap, arith, Bool, ◌||◌, true, false, Option, some, List, [], ◌∷◌,
  ◌++◌, Bytes, cstr, length, le_value, signed64, if◌then◌else◌, ok,
}
use pdo_4d.Connection.{Fourd, FourdResult, max_header_size}
use pdo_4d.FourdType.{ResultType, unknow, update_count, result_set}
use pdo_4d.Header.Response.{traite_header_response}
use pdo_4d.MultiQuery.{is_multi_query}
use pdo_4d.Proc.{ret}
use pdo_4d.Proc.Refine.{serve, also_sent}
use pdo_4d.Proc.Yields.{Yields, Yields-bind, Yields-ret, Yields-read}
use pdo_4d.Receive.{
  socket_receiv_header, socket_receiv_update_count, socket_receiv_data, column_types_of,
}
use pdo_4d.Receive.Rows.{socket_receiv_data-wire_rows}
use pdo_4d.Receive.Wire.{Row, AreRows, wire_rows, table}
use pdo_4d.Receive.HeaderLaws.{EndsFirst, socket_receiv_header-EndsFirst}
use pdo_4d.Session.Exchange.{
  Reply, reply_of, is_settled, readable, answer, clear_atrr_cnx, socket_send, receiv_check,
  valid_query,
}
use pdo_4d.Session.Message.{statement_message}
use pdo_4d.Session.Query.{no_count, receive_by_type, receive_result, send_query, refuse, query}

-- A response's header, and what the program makes of it in the result `state`.
pub record IsResponse (state : FourdResult) (h : Bytes) (t : FourdResult × ℕ) : Type 0 where
  pub ends : EndsFirst [] h
  pub fits : length h < max_header_size
  pub treated :
      traite_header_response (record state { header = cstr h; header_size = length h }) ≡ ok t

readable_ended :
    (zeroed : Bool) (s : FourdResult)
    → (zeroed || is_settled s.header) ≡ true
    → readable zeroed (s, 0) ≡ ret s
readable_ended true s e = refl
readable_ended false s e = rw e refl

pub receiv_check-IsResponse :
    (zeroed : Bool) (cnx : Fourd) (state : FourdResult) (h rest : Bytes) (t : FourdResult × ℕ)
    → IsResponse state h t
    → (zeroed || is_settled (cstr h)) ≡ true
    → Yields (receiv_check zeroed cnx state) (h ++ rest) (reply_of cnx t) rest
unfolding receiv_check
receiv_check-IsResponse zeroed cnx state h rest t r settled =
    let s : FourdResult = record state { header = cstr h; header_size = length h } in
    Yields-bind (socket_receiv_header state) (answer zeroed cnx) (h ++ rest)
      (socket_receiv_header-EndsFirst state h rest r.ends r.fits)
      (rw (readable_ended zeroed s settled, r.treated) (Yields-ret (reply_of cnx t) rest))

update_count-Yields :
    (type : ResultType) (cnx : Fourd) (res : FourdResult) (count rest : Bytes)
    → type ≡ update_count
    → length count ≡ 8
    → Yields
        (receive_by_type type cnx res)
        (count ++ rest)
        (record {
          cnx = record cnx { updated_row = signed64 (le_value count) };
          result = res;
          failed = false;
        })
        rest
unfolding socket_receiv_update_count receive_by_type
update_count-Yields update_count cnx res count rest e l =
    Yields-read 8 count rest _ (omega (arith, l)) (omega arith) (Yields-ret _ rest)
update_count-Yields unknow cnx res count rest e l = absurd (cc)
update_count-Yields result_set cnx res count rest e l = absurd (cc)

pub valid_query_single :
    (cnx : Fourd) (request : Bytes)
    → is_multi_query (some request) ≡ false
    → valid_query cnx (some request) ≡ (cnx, true)
unfolding valid_query
valid_query_single cnx request single = rw single refl

pub query_single :
    (cnx : Fourd) (id_cmd : ℕ) (request : Bytes) (res : FourdResult) (image : Option Bytes)
    → is_multi_query (some request) ≡ false
    → query cnx id_cmd request res image ≡ send_query (clear_atrr_cnx cnx) id_cmd request res image
unfolding query
query_single cnx id_cmd request res image single =
    ap
      (λ (v : Fourd × Bool).
        if v.1 then send_query v.0 id_cmd request res image else ret (refuse v.0 res))
      (valid_query_single (clear_atrr_cnx cnx) request single)

-- Take a request of a single statement whose message can be built, and a response whose header announces an
-- update count. Over the byte stream the call sends the one message, takes the header and the eight bytes behind
-- it, and succeeds: the number of rows is those eight bytes, the least significant first, as a signed number.
pub query-update_count :
    (cnx : Fourd) (id_cmd : ℕ) (request : Bytes) (res : FourdResult) (image : Option Bytes)
    (msg h count rest : Bytes) (t : FourdResult)
    → is_multi_query (some request) ≡ false
    → statement_message id_cmd request image ≡ ok msg
    → IsResponse res h (t, 0)
    → t.result_type ≡ update_count
    → length count ≡ 8
    → serve (query cnx id_cmd request res image) (h ++ (count ++ rest))
      ≡ some (record {
        value = record {
          cnx = record ((reply_of (no_count (clear_atrr_cnx cnx)) (t, 0)).cnx) {
            updated_row = signed64 (le_value count);
          };
          result = t;
          failed = false;
        };
        rest = rest;
        sent = msg ∷ [];
      })
unfolding send_query socket_send serve receive_result
query-update_count cnx id_cmd request res image msg h count rest t single m r u l =
    let c : Fourd = no_count (clear_atrr_cnx cnx) in
    let y : Yields (receive_result c res) (h ++ (count ++ rest))
        (record {
          cnx = record ((reply_of c (t, 0)).cnx) { updated_row = signed64 (le_value count) };
          result = t;
          failed = false;
        })
        rest =
      Yields-bind (receiv_check true c res) _ (h ++ (count ++ rest))
        (receiv_check-IsResponse true c res h (count ++ rest) (t, 0) r refl)
        (update_count-Yields t.result_type ((reply_of c (t, 0)).cnx) t count rest u l) in
    rw (query_single cnx id_cmd request res image single, m, send_query) (ap (also_sent msg) y)

pub result_set-Yields :
    (type : ResultType) (cnx : Fourd) (t : FourdResult) (rows : List Row) (rest : Bytes)
    → type ≡ result_set
    → Yields
        (socket_receiv_data t)
        (wire_rows t.updateability rows ++ rest)
        (record t { elmt = some (table rows) }, 0)
        rest
    → Yields
        (receive_by_type type cnx t)
        (wire_rows t.updateability rows ++ rest)
        (record {
          cnx = no_count cnx;
          result = record t { elmt = some (table rows) };
          failed = false;
        })
        rest
unfolding receive_by_type
result_set-Yields result_set cnx t rows rest e y =
    Yields-bind (socket_receiv_data t) _ (wire_rows t.updateability rows ++ rest) y
      (Yields-ret _ rest)
result_set-Yields unknow cnx t rows rest e y = absurd (cc)
result_set-Yields update_count cnx t rows rest e y = absurd (cc)

-- Over the byte stream, with the result as the call leaves it.
abbrev pub rows_reply : Fourd → FourdResult → List Row → Reply
rows_reply cnx t rows = record {
  cnx = no_count ((reply_of (no_count (clear_atrr_cnx cnx)) (t, 0)).cnx);
  result = record t { elmt = some (table rows) };
  failed = false;
}

-- The rows are those that the result announces.
pub record IsResultSet (t : FourdResult) (rows : List Row) : Type 0 where
  pub kind : t.result_type ≡ result_set
  pub typed : AreRows (column_types_of t) rows
  pub sent : t.row_count_sent ≡ length rows
  pub whole : length (table rows) ≡ t.nb_column * t.row_count_sent
  pub small : t.nb_column * t.row_count_sent < 2 ^ 32

pub query-IsResultSet :
    (cnx : Fourd) (id_cmd : ℕ) (request : Bytes) (res : FourdResult) (image : Option Bytes)
    (msg h rest : Bytes) (t : FourdResult) (rows : List Row)
    → is_multi_query (some request) ≡ false
    → statement_message id_cmd request image ≡ ok msg
    → IsResponse res h (t, 0)
    → IsResultSet t rows
    → serve (query cnx id_cmd request res image) (h ++ (wire_rows t.updateability rows ++ rest))
      ≡ some (record { value = rows_reply cnx t rows; rest = rest; sent = msg ∷ [] })
unfolding send_query socket_send serve receive_result
query-IsResultSet cnx id_cmd request res image msg h rest t rows single m r a =
    let c : Fourd = no_count (clear_atrr_cnx cnx) in
    let bs : Bytes = wire_rows t.updateability rows ++ rest in
    let y : Yields (receive_result c res) (h ++ bs) (rows_reply cnx t rows) rest =
      Yields-bind (receiv_check true c res) _ (h ++ bs)
        (receiv_check-IsResponse true c res h bs (t, 0) r refl)
        (result_set-Yields t.result_type ((reply_of c (t, 0)).cnx) t rows rest a.kind
          (socket_receiv_data-wire_rows t rows rest a.typed a.sent a.whole a.small)) in
    rw (query_single cnx id_cmd request res image single, m, send_query) (ap (also_sent msg) y)
