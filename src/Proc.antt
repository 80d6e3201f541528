-- ===== src/Proc.antt =====
-- What a routine of the library does to the socket: a tree of its reads and writes, each with the
-- rest of the routine as a function of what it got.
pub mod Refine
pub mod Yields
pub mod Always
pub mod Keeps
pub mod Hangs
use pdo_4d.Base.{
  ℕ, zero, suc, Bool, true, false, Option, none, some, List, [], ◌∷◌, ◌++◌, Bytes, take, length,
  replicate, Outcome, ok, fault,
}
use pdo_4d.Net.{Event, Recv, got, failed, recv, Read, frecv}

-- `fails`: undefined behaviour. `read n k`: a call of `frecv` into a zeroed buffer of `n` bytes, whose result
-- the program does not look at. `receive k`: a call of `recv` for one byte. `transmit m k`: a call of `send`.
-- `close k`: the socket is closed.
pub data Proc (A : Type 0) : Type 0 where
  ret : A → Proc A
  fails : Proc A
  read : ℕ → (Bytes → Proc A) → Proc A
  receive : (Option ℕ → Proc A) → Proc A
  transmit : Bytes → (Bool → Proc A) → Proc A
  close : Proc A → Proc A

infixl 5 ◌>>=◌ ◌>>◌
abbrev pub ◌>>=◌ : {A B : Type 0} → Proc A → (A → Proc B) → Proc B
ret a >>= f = f a
fails >>= f = fails
read n k >>= f = read n (λ bs. k bs >>= f)
receive k >>= f = receive (λ c. k c >>= f)
transmit m k >>= f = transmit m (λ b. k b >>= f)
close p >>= f = close (p >>= f)

abbrev pub ◌>>◌ : {A B : Type 0} → Proc A → Proc B → Proc B
p >> q = p >>= λ _. q

-- A computation on memory alone.
abbrev pub pure : {A : Type 0} → Outcome A → Proc A
pure (ok a) = ret a
pure fault = fails

-- The operating system's side: what will arrive, whether each `send` to come succeeds (all do behind the list),
-- what was sent, and whether the socket is open. A `send` that succeeds takes the whole message.
pub record World : Type 0 where
  pub incoming : List Event
  pub sends : List Bool
  pub sent : List Bytes
  pub is_open : Bool

-- How a run ends: with a value, in undefined behaviour, or never.
pub data Final (A : Type 0) : Type 0 where
  finished : A → World → Final A
  undefined hung : Final A

-- The buffer of `n` bytes, zero where nothing was put.
abbrev pub fill : ℕ → Bytes → Bytes
fill n bs = take n (bs ++ replicate n 0)

abbrev pub next_send : List Bool → Bool
next_send [] = true
next_send (b ∷ bs) = b

abbrev pub later_sends : List Bool → List Bool
later_sends [] = []
later_sends (b ∷ bs) = bs

-- A read from a closed socket fails at once.
pub read_events : World → ℕ → Option Read
read_events w n = elim w.is_open [
  | true ↦ frecv n w.incoming
  | false ↦ some (record { complete = false; buf = []; rest = w.incoming })
]

abbrev pub one_byte : Bytes → Option ℕ
one_byte [] = none
one_byte (c ∷ cs) = some c

pub receive_event : World → Option ℕ × List Event
receive_event w = elim w.is_open [
  | true ↦ elim (recv 1 w.incoming) [ got bs es ↦ (one_byte bs, es) | failed es ↦ (none, es) ]
  | false ↦ (none, w.incoming)
]

pub send_event : World → Bytes → Bool
send_event w m = elim w.is_open [ true ↦ next_send w.sends | false ↦ false ]

unfoldable pub run : {A : Type 0} → Proc A → World → Final A
unfolding read_events receive_event send_event
run (ret a) w = finished a w
run fails w = undefined
run (read n k) w = elim (read_events w n) [
  | none ↦ hung
  | some r ↦ run (k (fill n r.buf)) (record w { incoming = r.rest })
]
run (receive k) w = run (k (receive_event w).0) (record w { incoming = (receive_event w).1 })
run (transmit m k) w = elim (send_event w m) [
  | true ↦ run (k true) (record w { sends = later_sends w.sends; sent = w.sent ++ m ∷ [] })
  | false ↦ run (k false) (record w { sends = later_sends w.sends })
]
run (close p) w = run p (record w { is_open = false })
