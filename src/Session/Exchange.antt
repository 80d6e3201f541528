-- ===== src/Session/Exchange.antt =====
-- `socket_send`, `socket_send_data`, `receiv_check` and `_clear_atrr_cnx`.
use pdo_4d.Base.{
  ℕ, Bool, true, false, Option, not, ◌&&◌, ◌||◌, none, some, ◌∷◌, eqb_ℤ, equal, Outcome, ok, fault,
  ◌==◌, if◌then◌else◌, pos, negsuc, Bytes, codes, snprintf, [],
}
use pdo_4d.Connection.{Fourd, FourdResult, error_string_length, max_header_size}
use pdo_4d.Header.Field.{get}
use pdo_4d.Header.Status.{Status, get_status}
use pdo_4d.Header.Response.{traite_header_response}
use pdo_4d.MultiQuery.{is_multi_query}
use pdo_4d.Proc.{Proc, ret, fails, transmit, close, pure, ◌>>=◌}
use pdo_4d.Receive.{socket_receiv_header}

unfoldable pub clear_atrr_cnx : Fourd → Fourd
clear_atrr_cnx cnx = record cnx { error_code = pos 0; error_string = []; updated_row = pos 0 }

unfoldable pub socket_disconnect : Fourd → Proc Fourd
socket_disconnect cnx = close (ret (record cnx { connected = false }))

-- The value returned is looked at by no caller. A failed `send` closes the socket.
unfoldable pub socket_send : Fourd → Bytes → Proc Fourd
unfolding socket_disconnect
socket_send cnx msg =
    transmit msg λ sent. elim sent [ true ↦ ret cnx | false ↦ socket_disconnect cnx ]

-- The connection and the result behind a call, and whether it returned 1.
pub record Reply : Type 0 where
  pub cnx : Fourd
  pub result : FourdResult
  pub failed : Bool

-- Both branches copy the state of the response to the connection.
abbrev report : Fourd → FourdResult → Fourd
report cnx state = record cnx {
  status = state.status;
  error_code = state.error_code;
  error_string = snprintf error_string_length state.error_string;
}

abbrev pub reply_of : Fourd → FourdResult × ℕ → Reply
reply_of cnx t = record {
  cnx = report cnx t.0;
  result = t.0;
  failed = if t.1 == 0 then false else true;
}

abbrev lacks : Bytes → Bytes → ℕ → Bool
lacks header section max = elim (get header section max) [
  | fault ↦ true
  | ok found ↦ elim found [ none ↦ true | some _ ↦ false ]
]

-- Types and names of columns are written only behind their number.
abbrev are_counted : Bytes → Bool
are_counted header =
    not (lacks header (codes "Column-Count") max_header_size)
    || (lacks header (codes "Column-Types") max_header_size
        && lacks header (codes "Column-Aliases-Base64") max_header_size)

-- Whether two statuses tell the same, and whether the columns are in order when there was no error.
abbrev agrees : Bytes → Status → Outcome Status → Bool
agrees header s fault = true
agrees header s (ok t) =
    eqb_ℤ s.error_code t.error_code
    && equal s.error_string t.error_string
    && (not (eqb_ℤ s.ret (pos 0)) || are_counted header)

-- Whether a header leaves no field as it was that is read later: the status does not depend on what stood in its place before.
unfoldable pub is_settled : Bytes → Bool
is_settled header = elim (get_status header (pos 0) []) [
  | fault ↦ true
  | ok s ↦ agrees header s (get_status header (pos 1) (1 ∷ []))
]

-- `zeroed` is false for a `FOURD_RESULT` on the stack, which is not initialised: its header is then no string unless the end was found,
-- and a header that is not settled leaves fields undefined.
abbrev pub readable : Bool → FourdResult × ℕ → Proc FourdResult
readable zeroed h =
    if zeroed
    then ret h.0
    else if h.1 == 0
    then if is_settled h.0.header then ret h.0 else fails
    else fails

abbrev pub answer : Bool → Fourd → FourdResult × ℕ → Proc Reply
answer zeroed cnx h = readable zeroed h >>= λ received.
    pure (traite_header_response received) >>= λ t. ret (reply_of cnx t)

unfoldable pub receiv_check : Bool → Fourd → FourdResult → Proc Reply
receiv_check zeroed cnx state = socket_receiv_header state >>= λ h. answer zeroed cnx h

-- `_valid_query`: the connection, and whether the request is a single query.
unfoldable pub valid_query : Fourd → Option Bytes → Fourd × Bool
valid_query cnx request =
    if is_multi_query request
    then (
      record cnx { error_code = negsuc 5000; error_string = codes "MultiQuery not supported" },
      false,
    )
    else (cnx, true)
