-- ===== src/Net.antt =====
-- The socket as the program sees it, and lib4d_sql/communication.c, `frecv`.
-- What `recv` will return is a list of events that the network chooses: the bytes that arrive
-- together, or a failure. Behind the last event the peer has closed, and `recv` returns 0.
pub mod Stream
use pdo_4d.Base.{
  ℕ, zero, suc, ◌-◌, Bool, true, false, Option, none, some, List, [], ◌∷◌, ◌++◌, leb, Bytes, length,
  take, drop,
}

pub data Event : Type 0 where
  segment : Bytes → Event
  failure : Event

-- One call of `recv`: the bytes put into the buffer, or -1.
pub data Recv : Type 0 where
  got : Bytes → List Event → Recv
  failed : List Event → Recv

abbrev pub leave : Bytes → List Event → List Event
leave [] es = es
leave (c ∷ cs) es = segment (c ∷ cs) ∷ es

-- recv(s, buf, len, 0)
unfoldable pub recv : ℕ → List Event → Recv
recv len [] = got [] []
recv len (failure ∷ es) = failed es
recv len (segment bs ∷ es) = got (take len bs) (leave (drop len bs) es)

-- What a call of `frecv` leaves: whether it returned `len`, the bytes it put into the buffer, and the events to come.
pub record Read : Type 0 where
  pub complete : Bool
  pub buf : Bytes
  pub rest : List Event

abbrev pub prepend : Bytes → Option Read → Option Read
prepend bs none = none
prepend bs (some r) = some (record r { buf = bs ++ r.buf })

-- The loop with at most `fuel` rounds; `none` means that it has not ended by then.
unfoldable pub frecv_loop : ℕ → ℕ → List Event → Option Read
unfolding recv
frecv_loop zero len es = none
frecv_loop (suc fuel) len es = elim (recv len es) [
  | failed es' ↦ some (record { complete = false; buf = []; rest = es' })
  | got bs es' ↦ elim (leb len (length bs)) [
    | true ↦ some (record { complete = true; buf = bs; rest = es' })
    | false ↦ prepend bs (frecv_loop fuel (len - length bs) es')
  ]
]

-- One round for each event and one more are enough, if any number is.
unfoldable pub frecv : ℕ → List Event → Option Read
unfolding frecv_loop
frecv len es = frecv_loop (suc (length es)) len es
