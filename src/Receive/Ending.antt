-- ===== src/Receive/Ending.antt =====
-- The loop over the bytes of a header ends, whatever the network does.
use pdo_4d.Base.{ℕ, zero, suc, Bool, true, false, Option, none, some, [], ◌∷◌, ◌==◌, Bytes}
use pdo_4d.Connection.{FourdResult, max_header_size}
use pdo_4d.Proc.{ret}
use pdo_4d.Proc.Hangs.{ByBytes, ByBytes-bind, ByBytes-if}
use pdo_4d.Receive.{with_header, header_loop, at_end, socket_receiv_header}
use pdo_4d.Receive.Steps.{full_read, tested, byte_read}

tested-ByBytes :
    (room : ℕ) (last_first : Bytes) (b : Bool)
    → ByBytes (header_loop room last_first)
    → ByBytes (tested room last_first b)
tested-ByBytes room last_first true later = ByBytes-if (room == 0) _ _ tt tt
tested-ByBytes room last_first false later = later

full_read-ByBytes : (last_first : Bytes) (c : Option ℕ) → ByBytes (full_read last_first c)
full_read-ByBytes last_first none = tt
full_read-ByBytes last_first (some b) = tt

byte_read-ByBytes :
    (room : ℕ) (last_first : Bytes)
    → ((next : Bytes) → ByBytes (header_loop room next))
    → (c : Option ℕ) → ByBytes (byte_read room last_first c)
byte_read-ByBytes room last_first later none = tt
byte_read-ByBytes room last_first later (some b) =
    tested-ByBytes room (b ∷ last_first) (at_end (b ∷ last_first)) (later (b ∷ last_first))

-- The loop has one round for each byte of the buffer at most.
header_loop-ByBytes : (room : ℕ) (last_first : Bytes) → ByBytes (header_loop room last_first)
unfolding header_loop
header_loop-ByBytes zero last_first = full_read-ByBytes last_first
header_loop-ByBytes (suc room) last_first =
    byte_read-ByBytes room last_first (header_loop-ByBytes room)

pub socket_receiv_header-ByBytes : (state : FourdResult) → ByBytes (socket_receiv_header state)
unfolding socket_receiv_header
socket_receiv_header-ByBytes state =
    ByBytes-bind (header_loop max_header_size []) (λ h. ret (with_header state h))
      (header_loop-ByBytes max_header_size []) (λ h. tt)
