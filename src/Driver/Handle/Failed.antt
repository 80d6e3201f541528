-- ===== src/Driver/Handle/Failed.antt =====
-- A statement that the server refuses, through the driver.
use pdo_4d.Base.{
  ℕ, ◌^◌, ◌≡◌, ◌≢◌, refl, ap, arith, true, false, Option, none, some, [], ◌∷◌, ◌++◌, negsuc, Bytes,
  to_unsigned, snprintf, ◌==◌, ok,
}
use pdo_4d.Client.Connect.{fourd_exec}
use pdo_4d.Connection.{Fourd, FourdResult, blank_result, error_string_length}
use pdo_4d.Driver.{Dbh, pdo_4d_error, pdo_4d_error_info}
use pdo_4d.Driver.Handle.{executed, fourd_handle_doer}
use pdo_4d.Driver.Statement.Info.{pdo_4d_fetch_error_func}
use pdo_4d.MultiQuery.{is_multi_query}
use pdo_4d.Proc.{World, run}
use pdo_4d.Proc.Refine.{serve, also_sent, IsReady, Ends, run-serve}
use pdo_4d.Proc.Yields.{Yields, Yields-bind, Yields-ret, serve-bind}
use pdo_4d.Session.Exchange.{Reply, reply_of, clear_atrr_cnx, socket_send, receiv_check}
use pdo_4d.Session.Message.{statement_message}
use pdo_4d.Session.Query.{no_count, receive_result, send_query, query}
use pdo_4d.Session.Served.{IsResponse, receiv_check-IsResponse, query_single}
use pdo_4d.SqlState.{fourd_sqlstate, sqlstate_of}

abbrev failed_reply : Fourd → FourdResult → Reply
failed_reply cnx t = reply_of (no_count (clear_atrr_cnx cnx)) (t, 1)

-- A response with an error ends the exchange.
query-failed :
    (cnx : Fourd) (id_cmd : ℕ) (request : Bytes) (res : FourdResult) (image : Option Bytes)
    (msg h rest : Bytes) (t : FourdResult)
    → is_multi_query (some request) ≡ false
    → statement_message id_cmd request image ≡ ok msg
    → IsResponse res h (t, 1)
    → serve (query cnx id_cmd request res image) (h ++ rest)
      ≡ some (record { value = failed_reply cnx t; rest = rest; sent = msg ∷ [] })
unfolding send_query socket_send serve receive_result
query-failed cnx id_cmd request res image msg h rest t single m r =
    let c : Fourd = no_count (clear_atrr_cnx cnx) in
    let y : Yields (receive_result c res) (h ++ rest) (failed_reply cnx t) rest =
      Yields-bind (receiv_check true c res) _ (h ++ rest)
        (receiv_check-IsResponse true c res h rest (t, 1) r refl)
        (Yields-ret (failed_reply cnx t) rest) in
    rw (query_single cnx id_cmd request res image single, m, send_query) (ap (also_sent msg) y)

-- The handle behind such a statement.
abbrev pub refused : Dbh → FourdResult → Dbh
refused dbh t = pdo_4d_error (record dbh { server = (failed_reply dbh.server t).cnx })

refused-reports :
    (dbh : Dbh) (t : FourdResult)
    → to_unsigned (2 ^ 32) t.error_code ≢ 0
    → pdo_4d_fetch_error_func (refused dbh t) none
        ≡ some
            (to_unsigned (2 ^ 32) t.error_code, some (snprintf error_string_length t.error_string))
      × ((refused dbh t).error_code ≡ sqlstate_of t.error_code)
unfolding pdo_4d_fetch_error_func pdo_4d_error pdo_4d_error_info fourd_sqlstate
refused-reports dbh t other =
    let code : (to_unsigned (2 ^ 32) t.error_code == 0) ≡ false = ground arith in
    (rw (code, code) refl, rw code refl)

-- Take a request of a single statement whose message can be built, an open socket that accepts it, and a response
-- that consists of a header with an error of a code that is not 0 as an `unsigned int`. However the network cuts the response into segments,
-- the driver sends the one message, takes exactly the header from the stream and returns -1; PDO then gets the
-- code, the text and the SQLSTATE of this error.
pub run-fourd_handle_doer-failed :
    (dbh : Dbh) (sql msg h rest : Bytes) (t : FourdResult) (w : World)
    → is_multi_query (some sql) ≡ false
    → statement_message 3 sql dbh.server.preferred_image_types ≡ ok msg
    → IsResponse blank_result h (t, 1)
    → to_unsigned (2 ^ 32) t.error_code ≢ 0
    → IsReady w (h ++ rest)
    → Ends w
        (record { value = (refused dbh t, negsuc 0); rest = rest; sent = msg ∷ [] })
        (run (fourd_handle_doer dbh sql) w)
      × (pdo_4d_fetch_error_func (refused dbh t) none
          ≡ some (
            to_unsigned (2 ^ 32) t.error_code,
            some (snprintf error_string_length t.error_string),
          ))
      × ((refused dbh t).error_code ≡ sqlstate_of t.error_code)
unfolding fourd_handle_doer fourd_exec serve
run-fourd_handle_doer-failed dbh sql msg h rest t w single m r other ready =
    let (report, state) = refused-reports dbh t other in
    (
      run-serve (fourd_handle_doer dbh sql) w (h ++ rest) ready (
          serve-bind (fourd_exec dbh.server sql) (executed dbh) (h ++ rest)
            (query-failed dbh.server 3 sql blank_result dbh.server.preferred_image_types msg h rest
              t single m r)
            refl),
      report,
      state,
    )
