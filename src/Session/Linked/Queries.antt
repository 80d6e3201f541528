-- ===== src/Session/Linked/Queries.antt =====
-- Queries and fetches keep this: what counts as connected has an open socket.
use pdo_4d.Base.{
  ℕ, ◌+◌, ◌*◌, ◌-◌, ◌^◌, ◌≡◌, sym, ◌∙◌, arith, Bool, true, Option, some, List, [], ◌∷◌, Bytes,
}
use pdo_4d.Connection.{Element, Fourd, FourdResult, blank_result}
use pdo_4d.FourdType.{ResultType, unknow, update_count, result_set}
use pdo_4d.Params.{serialize_params}
use pdo_4d.Proc.{Proc, pure, ◌>>=◌}
use pdo_4d.Proc.Keeps.{Keeps, Keeps-bind, Keeps-after-Silent, Keeps-if, pure-Silent}
use pdo_4d.Receive.{socket_receiv_data, socket_receiv_update_count}
use pdo_4d.Receive.Silent.{socket_receiv_data-Silent}
use pdo_4d.Session.Exchange.{Reply, clear_atrr_cnx, socket_send, receiv_check, valid_query}
use pdo_4d.Session.Fetch.{u32, next_first, next_last, overruns, fetch_rows, fetch_result}
use pdo_4d.Session.Message.{statement_message, fetch_message, param_message}
use pdo_4d.Session.Query.{no_count, receive_by_type, receive_result, send_query, query, query_param}
use pdo_4d.Session.Linked.{Linked, LinkedReply, socket_send-Linked, receiv_check-Linked}

receive_by_type-Linked :
    (o : Bool) (type : ResultType) (cnx : Fourd) (res : FourdResult)
    → Linked o cnx
    → Keeps LinkedReply o (receive_by_type type cnx res)
unfolding receive_by_type socket_receiv_update_count
receive_by_type-Linked o unknow cnx res l = l
receive_by_type-Linked o update_count cnx res l = λ bs. l
receive_by_type-Linked o result_set cnx res l =
    Keeps-after-Silent LinkedReply o (socket_receiv_data res) _ (socket_receiv_data-Silent res)
      (λ d. l)

receive_result-Linked :
    (o : Bool) (cnx : Fourd) (res : FourdResult)
    → Linked o cnx
    → Keeps LinkedReply o (receive_result cnx res)
unfolding receive_result
receive_result-Linked o cnx res l =
    Keeps-bind LinkedReply LinkedReply o (receiv_check true cnx res) _
      (receiv_check-Linked true o cnx res l)
      λ o' r k.
        Keeps-if LinkedReply o' r.failed _ _ (λ e. k)
          (λ e. receive_by_type-Linked o' r.result.result_type r.cnx r.result k)

send_query-Linked :
    (o : Bool) (cnx : Fourd) (id_cmd : ℕ) (request : Bytes) (res : FourdResult)
    (image : Option Bytes)
    → Linked o cnx
    → Keeps LinkedReply o (send_query cnx id_cmd request res image)
unfolding send_query
send_query-Linked o cnx id_cmd request res image l =
    Keeps-after-Silent LinkedReply o (pure (statement_message id_cmd request image)) _
      (pure-Silent (statement_message id_cmd request image))
      λ msg.
        Keeps-bind Linked LinkedReply o (socket_send (no_count cnx) msg) _
          (socket_send-Linked o (no_count cnx) msg l) λ o' c k. receive_result-Linked o' c res k

-- The check for a second statement leaves `connected` alone.
valid_query_connected :
    (cnx : Fourd) (request : Option Bytes) → (valid_query cnx request).0.connected ≡ cnx.connected
unfolding valid_query
valid_query_connected cnx request = ground arith

pub query-Linked :
    (o : Bool) (cnx : Fourd) (id_cmd : ℕ) (request : Bytes) (res : FourdResult)
    (image : Option Bytes)
    → Linked o cnx
    → Keeps LinkedReply o (query cnx id_cmd request res image)
unfolding query clear_atrr_cnx
query-Linked o cnx id_cmd request res image l =
    let v = valid_query (clear_atrr_cnx cnx) (some request) in
    let k : Linked o v.0 =
      λ e. l (sym (valid_query_connected (clear_atrr_cnx cnx) (some request)) ∙ e) in
    Keeps-if LinkedReply o v.1 _ _ (λ e. send_query-Linked o v.0 id_cmd request res image k)
      (λ e. k)

-- The values of the parameters are sent behind the message.
abbrev pub values_sent : Fourd → Bytes → FourdResult → Bytes → Proc Reply
values_sent cnx values res msg =
    socket_send cnx msg >>= λ c. socket_send c values >>= λ c'. receive_result c' res

values_sent-Linked :
    (o : Bool) (cnx : Fourd) (values : Bytes) (res : FourdResult) (msg : Bytes)
    → Linked o cnx
    → Keeps LinkedReply o (values_sent cnx values res msg)
values_sent-Linked o cnx values res msg l =
    Keeps-bind Linked LinkedReply o (socket_send cnx msg) _ (socket_send-Linked o cnx msg l)
      λ o' c k.
        Keeps-bind Linked LinkedReply o' (socket_send c values) _ (socket_send-Linked o' c values k)
          λ o'' c' j. receive_result-Linked o'' c' res j

pub query_param-Linked :
    (o : Bool) (cnx : Fourd) (id_cmd : ℕ) (request : Bytes) (params : List Element)
    (res : FourdResult) (image : Option Bytes)
    → Linked o cnx
    → Keeps LinkedReply o (query_param cnx id_cmd request params res image)
unfolding query_param clear_atrr_cnx
query_param-Linked o cnx id_cmd request [] res image l =
    let v = valid_query cnx (some request) in
    let k : Linked o v.0 = λ e. l (sym (valid_query_connected cnx (some request)) ∙ e) in
    Keeps-if LinkedReply o v.1 _ _ (λ e. query-Linked o v.0 id_cmd request res image k) (λ e. k)
query_param-Linked o cnx id_cmd request (p ∷ ps) res image l =
    let v = valid_query cnx (some request) in
    let k : Linked o v.0 = λ e. l (sym (valid_query_connected cnx (some request)) ∙ e) in
    Keeps-if LinkedReply o v.1 _ _
      (λ e.
        Keeps-after-Silent LinkedReply o (pure (serialize_params [] (p ∷ ps))) _
          (pure-Silent (serialize_params [] (p ∷ ps)))
          λ values.
            Keeps-after-Silent LinkedReply o (pure (param_message id_cmd request image (p ∷ ps)))
              (values_sent (clear_atrr_cnx v.0) values res)
              (pure-Silent (param_message id_cmd request image (p ∷ ps)))
              (λ msg. values_sent-Linked o (clear_atrr_cnx v.0) values res msg k))
      (λ e. k)

fetch_rows-Linked :
    (o : Bool) (cnx : Fourd) (id_cmd : ℕ) (res : FourdResult) (first_row last_row : ℕ)
    (new : FourdResult)
    → Linked o cnx
    → Keeps LinkedReply o (fetch_rows cnx id_cmd res first_row last_row new)
unfolding fetch_rows clear_atrr_cnx
fetch_rows-Linked o cnx id_cmd res first_row last_row new l =
    let cleared = clear_atrr_cnx cnx in
    let msg = fetch_message id_cmd res.id_statement 0 first_row last_row in
    Keeps-bind Linked LinkedReply o (socket_send cleared msg) _ (socket_send-Linked o cleared msg l)
      λ o' c k.
        Keeps-bind LinkedReply LinkedReply o' (receiv_check true c new) _
          (receiv_check-Linked true o' c new k)
          λ o'' r j.
            Keeps-if LinkedReply o'' r.failed _ _ (λ e. j)
              (λ e.
                Keeps-after-Silent LinkedReply o'' (socket_receiv_data r.result) _
                  (socket_receiv_data-Silent r.result) (λ d. j))

pub fetch_result-Linked :
    (o : Bool) (cnx : Fourd) (res : FourdResult)
    → Linked o cnx
    → Keeps LinkedReply o (fetch_result cnx res)
unfolding fetch_result clear_atrr_cnx
fetch_result-Linked o cnx res l =
    Keeps-bind LinkedReply LinkedReply o
      (fetch_rows (clear_atrr_cnx cnx) 123 res (next_first res) (next_last res)
        (record blank_result {
          first_row = next_first res;
          row_count_sent = u32 (next_last res + 2 ^ 32 - next_first res + 1);
          nb_column = res.nb_column;
          columns = res.columns;
        }))
      _ (fetch_rows-Linked o (clear_atrr_cnx cnx) 123 res (next_first res) (next_last res) _ l)
      λ o' r k.
        Keeps-if LinkedReply o' r.failed _ _ (λ e. k)
          (λ e.
            Keeps-if LinkedReply o'
              (overruns res.elmt (u32 (r.result.nb_column * r.result.row_count_sent))) _ _ (λ f. tt)
              (λ f. k))
