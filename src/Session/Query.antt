-- ===== src/Session/Query.antt =====
-- `_query` and `_query_param`.
use pdo_4d.Base.{ℕ, true, false, Option, some, List, [], ◌∷◌, if◌then◌else◌, negsuc, Bytes}
use pdo_4d.Connection.{Element, Fourd, FourdResult}
use pdo_4d.FourdType.{ResultType, unknow, update_count, result_set}
use pdo_4d.Params.{serialize_params}
use pdo_4d.Proc.{Proc, ret, pure, ◌>>=◌}
use pdo_4d.Receive.{socket_receiv_data, socket_receiv_update_count}
use pdo_4d.Session.Exchange.{Reply, clear_atrr_cnx, socket_send, receiv_check, valid_query}
use pdo_4d.Session.Message.{statement_message, param_message}

abbrev pub no_count : Fourd → Fourd
no_count cnx = record cnx { updated_row = negsuc 0 }

-- The switch on the type of the result. The value returned by `socket_receiv_data` is not looked at.
unfoldable pub receive_by_type : ResultType → Fourd → FourdResult → Proc Reply
receive_by_type update_count cnx res =
    socket_receiv_update_count cnx >>= λ c. ret (record { cnx = c; result = res; failed = false })
receive_by_type result_set cnx res = socket_receiv_data res >>= λ d.
    ret (record { cnx = no_count cnx; result = d.0; failed = false })
receive_by_type unknow cnx res = ret (record { cnx = cnx; result = res; failed = false })

-- The response to a statement.
unfoldable pub receive_result : Fourd → FourdResult → Proc Reply
receive_result cnx res = receiv_check true cnx res >>= λ r.
    if r.failed then ret r else receive_by_type r.result.result_type r.cnx r.result

-- A statement that was found valid. `-1` is put into `updated_row` before the message is sent and again before the count is read.
unfoldable pub send_query : Fourd → ℕ → Bytes → FourdResult → Option Bytes → Proc Reply
unfolding receive_result receive_by_type
send_query cnx id_cmd request res image_type =
    pure (statement_message id_cmd request image_type) >>= λ msg.
    socket_send (no_count cnx) msg >>= λ c. receive_result c res

abbrev pub refuse : Fourd → FourdResult → Reply
refuse cnx res = record { cnx = cnx; result = res; failed = true }

-- The result is the caller's, or a new one of zeros that is freed at the end.
unfoldable pub query : Fourd → ℕ → Bytes → FourdResult → Option Bytes → Proc Reply
unfolding send_query
query cnx id_cmd request res image_type =
    let v = valid_query (clear_atrr_cnx cnx) (some request) in
    if v.1 then send_query v.0 id_cmd request res image_type else ret (refuse v.0 res)

-- `send` of the data, in `socket_send_data`, is that of `socket_send` with a length.
unfoldable pub query_param :
    Fourd → ℕ → Bytes → List Element → FourdResult → Option Bytes → Proc Reply
unfolding query
query_param cnx id_cmd request params res image_type =
    let v = valid_query cnx (some request) in
    if v.1
    then elim params [
      | [] ↦ query v.0 id_cmd request res image_type
      | p ∷ ps ↦
          let cleared = clear_atrr_cnx v.0 in
          pure (serialize_params [] (p ∷ ps)) >>= λ values.
          pure (param_message id_cmd request image_type (p ∷ ps)) >>= λ msg.
          socket_send cleared msg >>= λ c. socket_send c values >>= λ c'. receive_result c' res
    ]
    else ret (refuse v.0 res)
