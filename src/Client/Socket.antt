-- ===== src/Client/Socket.antt =====
-- lib4d_sql/communication.c: `socket_connect_timeout` and `socket_connect`, over what the system answers to their calls, and
-- `set_sock_blocking`. Whether the socket blocks is no part of the state of a connection.
pub mod Opening
use pdo_4d.Base.{
  ℕ, ◌-◌, bit_or, bit_and, Bool, true, false, Option, none, some, ◌==◌, if◌then◌else◌, eqb_ℤ, ℤ,
  pos, negsuc, neg, Bytes, codes, snprintf,
}
use pdo_4d.Client.Connect.{with_error}
use pdo_4d.Connection.{Fourd, fourd_ok, fourd_error, error_string_length}
use pdo_4d.Proc.{Proc, ret, close}

-- `connect`: it succeeded, it failed with an `errno` other than EINPROGRESS, or it goes on: then `select` says
-- in time that the socket can be written, and `getsockopt` gives the error of the connection and its text, or
-- the time is over.
pub data Connecting : Type 0 where
  connected : Connecting
  not_connected : ℤ → Connecting
  writable : ℤ → Bytes → Connecting
  timed_out : Connecting

-- `getaddrinfo` with the text of its error, `socket` with the `errno` of its failure, and `connect`.
pub record System : Type 0 where
  pub addrinfo : ℤ
  pub addrinfo_text : Bytes
  pub socket : Option ℕ
  pub socket_errno : ℤ
  pub connecting : Connecting

abbrev fails_with : Fourd → ℤ → Bytes → Fourd × ℕ
fails_with cnx code text = (with_error cnx code (snprintf error_string_length text), fourd_error)

-- closesocket, and the error.
abbrev closes_with : Fourd → ℤ → Bytes → Proc (Fourd × ℕ)
closes_with cnx code text = close (ret (fails_with (record cnx { socket = none }) code text))

abbrev pub connecting : Fourd → Connecting → Proc (Fourd × ℕ)
connecting cnx connected = ret (cnx, fourd_ok)
connecting cnx (not_connected errno) = closes_with cnx (neg errno) (codes "Error connecting")
connecting cnx (writable valopt text) =
    if eqb_ℤ valopt (pos 0) then ret (cnx, fourd_ok) else closes_with cnx valopt text
connecting cnx timed_out = closes_with cnx (pos 3011) (codes "Connect timed out")

unfoldable pub socket_connect_timeout : System → Fourd → Proc (Fourd × ℕ)
socket_connect_timeout system cnx =
    if eqb_ℤ system.addrinfo (pos 0)
    then elim system.socket [
      | none ↦ ret (
          fails_with (record cnx { socket = none }) (neg system.socket_errno)
            (codes "Unable to create socket"))
      | some s ↦ connecting (record cnx { socket = some s }) system.connecting
    ]
    else ret (fails_with cnx (neg system.addrinfo) system.addrinfo_text)

-- The socket is open behind a `connect` that blocks.
abbrev pub is_connected : Fourd → Proc (Fourd × ℕ)
is_connected cnx = elim cnx.socket [
  | none ↦ ret (fails_with cnx (negsuc 0) (codes "Unable to connect to server"))
  | some s ↦ ret (cnx, fourd_ok)
]

-- `connect_errno` is the `errno` of `connect`, if it failed.
abbrev pub blocking_connect : Fourd → Option ℤ → Proc (Fourd × ℕ)
blocking_connect cnx none = is_connected cnx
blocking_connect cnx (some errno) =
    closes_with cnx (neg errno) (codes "Unable to connect to server")

unfoldable pub socket_connect : System → Option ℤ → Fourd → Proc (Fourd × ℕ)
socket_connect system connect_errno cnx =
    if eqb_ℤ system.addrinfo (pos 0)
    then elim system.socket [
      | none ↦ ret (
          fails_with (record cnx { socket = none }) (neg system.socket_errno)
            (codes "Unable to create socket"))
      | some s ↦ blocking_connect (record cnx { socket = some s }) connect_errno
    ]
    else ret (fails_with cnx (neg system.addrinfo) system.addrinfo_text)

-- The flags of the socket behind the two calls of `fcntl`; `myflag` is O_NONBLOCK.
unfoldable pub set_sock_blocking : ℕ → ℕ → Bool → ℕ
set_sock_blocking myflag flags block =
    if block then flags - bit_and flags myflag else bit_or flags myflag
