-- ===== src/Client/Connect.antt =====
-- Opening and closing a connection, and a query without a statement.
use pdo_4d.Base.{
  ℕ, true, false, Option, none, some, ◌==◌, if◌then◌else◌, ◌^◌, signed32, to_unsigned, eqb_ℤ, ℤ,
  pos, negsuc, [], Bytes, codes,
}
use pdo_4d.Connection.{Fourd, fourd_error, fourd_ok, blank_result}
use pdo_4d.Proc.{Proc, ret, ◌>>=◌}
use pdo_4d.Session.Exchange.{Reply, socket_disconnect}
use pdo_4d.Session.Query.{query}
use pdo_4d.Session.Control.{login, logout, quit}

abbrev pub with_error : Fourd → ℤ → Bytes → Fourd
with_error cnx code text = record cnx { error_code = code; error_string = text }

abbrev pub fourd_set_preferred_image_types : Fourd → Option Bytes → Fourd
fourd_set_preferred_image_types cnx types = record cnx { preferred_image_types = types }

unfoldable pub fourd_init : Fourd
fourd_init =
    fourd_set_preferred_image_types
      (record {
        socket = none;
        init = true;
        connected = false;
        status = 0;
        error_code = pos 0;
        error_string = [];
        updated_row = pos 0;
        preferred_image_types = none;
        timeout = pos 0;
      })
      (some (codes "jpg"))

abbrev pub or_empty : Option Bytes → Bytes
or_empty none = []
or_empty (some s) = s

-- A login that left no error code behind gets one.
abbrev login_error : Fourd → Fourd
login_error cnx =
    if eqb_ℤ cnx.error_code (pos 0)
    then with_error cnx (negsuc 0) (codes "Error during login")
    else cnx

-- `connected` is what `socket_connect_timeout` did: the connection, and the value returned.
unfoldable pub fourd_connect :
    (Fourd → Proc (Fourd × ℕ)) → Fourd → Bytes → Option Bytes → Proc (Fourd × ℕ)
fourd_connect socket_connect_timeout cnx user password =
    if cnx.init
    then if cnx.connected
      then ret (with_error cnx (negsuc 0) (codes "Already connected"), fourd_error)
      else (socket_connect_timeout cnx >>= λ c.
          if c.1 == 0
          then (login c.0 1 user (or_empty password) c.0.preferred_image_types >>= λ r.
              if r.failed
              then ret (login_error (record r.cnx { connected = false }), fourd_error)
              else ret (with_error (record r.cnx { connected = true }) (pos 0) [], fourd_ok))
          else ret (record c.0 { connected = false }, fourd_error))
    else ret (with_error cnx (negsuc 0) (codes "FOURD object did not initialised"), fourd_error)

unfoldable pub fourd_close : Fourd → Proc (Fourd × ℕ)
unfolding socket_disconnect
fourd_close cnx = logout cnx 4 >>= λ l.
    if l.failed
    then ret (l.cnx, fourd_error)
    else (quit l.cnx 5 >>= λ q.
        if q.failed
        then ret (q.cnx, fourd_error)
        else socket_disconnect q.cnx >>= λ c. ret (c, fourd_ok))

-- `error_code` is converted to an `int`.
abbrev pub fourd_errno : Fourd → ℤ
fourd_errno cnx = signed32 (to_unsigned (2 ^ 32) cnx.error_code)

-- No result is handed over: one of zeros is used and freed.
unfoldable pub fourd_exec : Fourd → Bytes → Proc Reply
fourd_exec cnx request = query cnx 3 request blank_result cnx.preferred_image_types
