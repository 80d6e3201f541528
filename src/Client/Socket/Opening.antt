-- ===== src/Client/Socket/Opening.antt =====
-- What is left of an attempt to connect.
use pdo_4d.Base.{
  ℕ, Option, none, some, ◌≡◌, ◌≢◌, ◌⊎◌, inl, inr, refl, Bool-cases, Option-cases, eqb_ℤ, pos,
}
use pdo_4d.Client.Socket.{
  Connecting, connected, not_connected, writable, timed_out, System, connecting,
  socket_connect_timeout,
}
use pdo_4d.Connection.{Fourd, fourd_ok, fourd_error}
use pdo_4d.Proc.{World, run}
use pdo_4d.Proc.Always.{Always, Returns, run-Always}

-- The attempt gave a socket and returned 0, or left none and returned 1.
abbrev pub IsOpened : Option ℕ → Fourd × ℕ → Type 0
IsOpened created r =
    ((r.1 ≡ fourd_ok) × (r.0.socket ≡ created) × (created ≢ none))
    ⊎ ((r.1 ≡ fourd_error) × (r.0.socket ≡ none))

some-is_not_none : (s : ℕ) → ◌≢◌ {A = Option ℕ} (some s) none
some-is_not_none s e = absurd (cc)

connecting-IsOpened :
    (cnx : Fourd) (s : ℕ) (c : Connecting)
    → cnx.socket ≡ some s
    → Always (IsOpened (some s)) (connecting cnx c)
connecting-IsOpened cnx s connected h = inl (refl, h, some-is_not_none s)
connecting-IsOpened cnx s (not_connected errno) h = inr (refl, refl)
connecting-IsOpened cnx s (writable valopt text) h = elim (Bool-cases (eqb_ℤ valopt (pos 0))) [
  | inl e ↦ rw e (inl (refl, h, some-is_not_none s))
  | inr e ↦ rw e (inr (refl, refl))
]
connecting-IsOpened cnx s timed_out h = inr (refl, refl)

-- Whatever the system answers, an attempt to connect a connection without socket ends in one of two ways: it returns 0, and the connection has the
-- socket that the system created, or it returns 1, and the connection has no socket.
pub socket_connect_timeout-IsOpened :
    (system : System) (cnx : Fourd) (w : World) {r : Fourd × ℕ}
    → cnx.socket ≡ none
    → Returns (run (socket_connect_timeout system cnx) w) r
    → IsOpened system.socket r
unfolding socket_connect_timeout
socket_connect_timeout-IsOpened system cnx w h ends =
    run-Always (IsOpened system.socket) (socket_connect_timeout system cnx) w
      (elim (Bool-cases (eqb_ℤ system.addrinfo (pos 0))) [
        | inl e ↦ elim (Option-cases system.socket) [
          | inl none_created ↦ rw (e, none_created, socket_connect_timeout) (inr (refl, refl))
          | inr (s, created) ↦
              rw (e, created, socket_connect_timeout)
                (connecting-IsOpened (record cnx { socket = some s }) s system.connecting refl)
        ]
        | inr e ↦ rw (e, socket_connect_timeout) (inr (refl, h))
      ])
      ends
