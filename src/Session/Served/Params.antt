-- ===== src/Session/Served/Params.antt =====
-- A statement with parameters, as a whole exchange.
use pdo_4d.Base.{
  arith, ℕ, ◌<◌, ◌^◌, length, ◌≡◌, refl, ap, true, false, Option, some, List, [], ◌∷◌, ◌++◌, Bytes,
  ok,
}
use pdo_4d.Connection.{Element, Fourd, FourdResult}
use pdo_4d.MultiQuery.{is_multi_query}
use pdo_4d.Params.Laws.{AreParams, serialize_params-wire_elements}
use pdo_4d.Proc.Refine.{serve, also_sent}
use pdo_4d.Proc.Yields.{Yields, Yields-bind}
use pdo_4d.Receive.Rows.{socket_receiv_data-wire_rows}
use pdo_4d.Receive.Wire.{wire_elements, Row, wire_rows, table}
use pdo_4d.Session.Exchange.{Reply, reply_of, clear_atrr_cnx, socket_send, receiv_check}
use pdo_4d.Session.Linked.Queries.{values_sent}
use pdo_4d.Session.Message.{param_message}
use pdo_4d.Session.Query.{no_count, receive_result, query_param}
use pdo_4d.Session.Served.{
  IsResponse, receiv_check-IsResponse, IsResultSet, valid_query_single, result_set-Yields,
}

abbrev pub param_reply : Fourd → FourdResult → List Row → Reply
param_reply cnx t rows = record {
  cnx = no_count ((reply_of (clear_atrr_cnx cnx) (t, 0)).cnx);
  result = record t { elmt = some (table rows) };
  failed = false;
}

receive_result-IsResultSet :
    (cnx : Fourd) (res : FourdResult) (h rest : Bytes) (t : FourdResult) (rows : List Row)
    → IsResponse res h (t, 0)
    → IsResultSet t rows
    → Yields
        (receive_result cnx res)
        (h ++ (wire_rows t.updateability rows ++ rest))
        (record {
          cnx = no_count ((reply_of cnx (t, 0)).cnx);
          result = record t { elmt = some (table rows) };
          failed = false;
        })
        rest
unfolding receive_result
receive_result-IsResultSet cnx res h rest t rows r a =
    let bs : Bytes = wire_rows t.updateability rows ++ rest in
    Yields-bind (receiv_check true cnx res) _ (h ++ bs)
      (receiv_check-IsResponse true cnx res h bs (t, 0) r refl)
      (result_set-Yields t.result_type ((reply_of cnx (t, 0)).cnx) t rows rest a.kind
        (socket_receiv_data-wire_rows t rows rest a.typed a.sent a.whole a.small))

-- A request of a single statement, with its parameters in the form in which they are sent.
param_query_single :
    (cnx : Fourd) (id_cmd : ℕ) (request : Bytes) (p : Element) (ps : List Element)
    (res : FourdResult) (image : Option Bytes) (msg : Bytes)
    → is_multi_query (some request) ≡ false
    → AreParams (p ∷ ps)
    → length (wire_elements (p ∷ ps)) < 2 ^ 31
    → param_message id_cmd request image (p ∷ ps) ≡ ok msg
    → query_param cnx id_cmd request (p ∷ ps) res image
      ≡ values_sent (clear_atrr_cnx cnx) (wire_elements (p ∷ ps)) res msg
unfolding query_param
param_query_single cnx id_cmd request p ps res image msg single sent short m =
    rw
      (
        valid_query_single cnx request single,
        serialize_params-wire_elements (p ∷ ps) [] sent (omega (arith, short)),
        m,
        query_param,
      )
      refl

pub query_param-IsResultSet :
    (cnx : Fourd) (id_cmd : ℕ) (request : Bytes) (p : Element) (ps : List Element)
    (res : FourdResult) (image : Option Bytes) (msg h rest : Bytes) (t : FourdResult)
    (rows : List Row)
    → is_multi_query (some request) ≡ false
    → AreParams (p ∷ ps)
    → length (wire_elements (p ∷ ps)) < 2 ^ 31
    → param_message id_cmd request image (p ∷ ps) ≡ ok msg
    → IsResponse res h (t, 0)
    → IsResultSet t rows
    → serve
        (query_param cnx id_cmd request (p ∷ ps) res image)
        (h ++ (wire_rows t.updateability rows ++ rest))
      ≡ some (record {
        value = param_reply cnx t rows;
        rest = rest;
        sent = msg ∷ wire_elements (p ∷ ps) ∷ [];
      })
unfolding socket_send serve
query_param-IsResultSet cnx id_cmd request p ps res image msg h rest t rows single sent short m r
      a =
    rw (param_query_single cnx id_cmd request p ps res image msg single sent short m) (
      ap (λ s. also_sent msg (also_sent (wire_elements (p ∷ ps)) s))
        (receive_result-IsResultSet (clear_atrr_cnx cnx) res h rest t rows r a))
