-- ===== src/Tests/Lives.antt =====
-- The life of a handle.
use pdo_4d.Base.{◌-◌, ◌^◌, true, some, [], ◌∷◌, codes, pos, negsuc, Bytes}
use pdo_4d.Client.Connect.{fourd_connect, fourd_exec, fourd_init}
use pdo_4d.Client.Socket.{Connecting, System, socket_connect_timeout}
use pdo_4d.Driver.{Dbh, pdo_4d_error, pdo_4d_error_info}
use pdo_4d.Driver.Handle.{Source, fourd_handle_doer, pdo_4d_handle_factory}
use pdo_4d.Driver.Lifecycle.{Step, Reachable}
use pdo_4d.Driver.Lifecycle.Invariant.{IsHandle}
use pdo_4d.Driver.Lifecycle.Reached.{Reachable-IsHandle}
use pdo_4d.Net.{segment}
use pdo_4d.Proc.{World, run}
use pdo_4d.Proc.Keeps.{Finishes}
use pdo_4d.Session.Control.{login}
use pdo_4d.MultiQuery.{is_multi_query, scan, switch}
use pdo_4d.Session.Exchange.{socket_send, receiv_check, valid_query, clear_atrr_cnx}
use pdo_4d.Session.Query.{query}
use pdo_4d.SqlState.{fourd_sqlstate, sqlstate_of}
use pdo_4d.Tests.Data.{count_header}
use pdo_4d.Tests.Responses.{dbh}

abbrev system : System
system = record {
  addrinfo = pos 0;
  addrinfo_text = [];
  socket = some 5;
  socket_errno = pos 0;
  connecting = Connecting.connected;
}

abbrev source : Source
source = record {
  charset = codes "UTF-8";
  user = [];
  password = [];
  username = some (codes "u");
  passwd = some (codes "p");
  timeout = pos 30;
  image_types = some (codes "jpg");
}

abbrev world : World
world = record { incoming = segment count_header ∷ []; sends = []; sent = []; is_open = true }

abbrev login_text : Bytes
login_text =
    codes
      "001 LOGIN \r\nUSER-NAME-BASE64:dQ==\r\nUSER-PASSWORD-BASE64:cA==\r\nPREFERRED-IMAGE-TYPES:jpg\r\nREPLY-WITH-BASE64-TEXT:Y\r\nPROTOCOL-VERSION:0.1a\r\n\r\n"

abbrev after : World
after = record { incoming = []; sends = []; sent = login_text ∷ []; is_open = true }

connects :
    Finishes
      (run (pdo_4d_handle_factory (socket_connect_timeout system) source) world)
      (dbh, true)
      after
unfolding run pdo_4d.Session.Exchange.is_settled pdo_4d_handle_factory fourd_init fourd_connect
    socket_connect_timeout login socket_send receiv_check pdo_4d.Session.Exchange.socket_disconnect
    pdo_4d.Session.Exchange.clear_atrr_cnx pdo_4d.Session.Message.login_message
    pdo_4d.Base64.base64_encode pdo_4d.Base64.encode_loop pdo_4d.Base64.encode_char
    pdo_4d.Receive.socket_receiv_header pdo_4d.Net.recv
    pdo_4d.Header.Response.traite_header_response pdo_4d.Header.Status.get_status
    pdo_4d.Header.Field.get pdo_4d.Strip.strstrip pdo_4d.FourdType.result_type_from_string
connects = Finishes.finishes (dbh, true) after

-- The handle behind a request of two statements.
abbrev refused : Dbh
refused = record dbh {
  server = record (dbh.server) {
    error_code = negsuc 5000;
    error_string = codes "MultiQuery not supported";
  };
  einfo = record { errcode = 2 ^ 32 - 5001; errmsg = some (codes "MultiQuery not supported") };
  error_code = codes "0LP01";
}

refuses : Finishes (run (fourd_handle_doer dbh (codes "A;B")) after) (refused, negsuc 0) after
unfolding run fourd_handle_doer fourd_exec query valid_query clear_atrr_cnx is_multi_query scan
    switch pdo_4d_error pdo_4d_error_info fourd_sqlstate sqlstate_of
refuses = Finishes.finishes (refused, negsuc 0) after

refused-Reachable : Reachable refused after
refused-Reachable =
    Reachable.later dbh after refused after
      (Reachable.made (socket_connect_timeout system) source world dbh true after connects)
      (Step.doer dbh (codes "A;B") after refused (negsuc 0) after refuses)

Reachable-IsHandle_example : IsHandle true refused
Reachable-IsHandle_example = Reachable-IsHandle refused after refused-Reachable
