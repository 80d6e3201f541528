-- ===== src/Proc/Refine.antt =====
-- A routine as a function of the byte stream, and the proof that the network's cuts do not matter.
use pdo_4d.Base.{
  ℕ, zero, suc, ◌≤◌, ◌<◌, ◌≡◌, refl, sym, ap, ◌∙◌, arith, Bool, true, false, Option, none, some,
  List, [], ◌∷◌, ◌++◌, Bytes, length, take, drop, ltb, leb, ◌&&◌, append-nil, append_assoc,
  Bool-cases, inl, inr, replicate,
}
use pdo_4d.Net.{Event, segment, failure, Recv, Read, recv, frecv}
use pdo_4d.Net.Stream.{stream, IsLive, Reads, frecv-Reads}
use pdo_4d.Proc.{
  Proc, ret, fails, read, receive, transmit, close, World, Final, finished, fill, run, read_events,
  receive_event, send_event, later_sends, one_byte,
}

-- The value, the bytes that are left in the stream, and the messages sent.
pub record Served (A : Type 0) : Type 0 where
  pub value : A
  pub rest : Bytes
  pub sent : List Bytes

abbrev pub also_sent : {A : Type 0} → Bytes → Option (Served A) → Option (Served A)
also_sent m none = none
also_sent m (some s) = some (record s { sent = m ∷ s.sent })

-- The routine over a byte stream that holds all that it reads, with every `send` accepted.
unfoldable pub serve : {A : Type 0} → Proc A → Bytes → Option (Served A)
serve (ret a) bs = some (record { value = a; rest = bs; sent = [] })
serve fails bs = none
serve (read n k) bs = elim (ltb 0 n && leb n (length bs)) [
  | true ↦ serve (k (take n bs)) (drop n bs)
  | false ↦ none
]
serve (receive k) [] = none
serve (receive k) (c ∷ bs) = serve (k (some c)) bs
serve (transmit m k) bs = also_sent m (serve (k true) bs)
serve (close p) bs = none

-- The socket is open, every `send` will be accepted, and `bs` will arrive.
pub record IsReady (w : World) (bs : Bytes) : Type 0 where
  pub open_socket : w.is_open ≡ true
  pub accepted : w.sends ≡ []
  pub live : IsLive w.incoming
  pub arrives : stream w.incoming ≡ bs

-- The run ends as `s` says, and leaves the rest of the stream.
pub record Ends {A : Type 0} (w : World) (s : Served A) (f : Final A) : Type 0 where
  pub world : World
  pub finishes : f ≡ finished s.value world
  pub ready : IsReady world s.rest
  pub messages : world.sent ≡ w.sent ++ s.sent

record Receives (es : List Event) (c : ℕ) (bs : Bytes) : Type 0 where
  after : List Event
  byte : recv 1 es ≡ Recv.got (c ∷ []) after
  left : stream after ≡ bs
  live : IsLive after

recv-Receives :
    (es : List Event) (c : ℕ) (bs : Bytes) → IsLive es → stream es ≡ c ∷ bs → Receives es c bs
unfolding recv
recv-Receives [] c bs l e = absurd (cc)
recv-Receives (failure ∷ es) c bs l e = absurd (cc)
recv-Receives (segment [] ∷ es) c bs l e = absurd (omega arith)
recv-Receives (segment (d ∷ []) ∷ es) c bs l e = record {
  after = es;
  byte = cc;
  left = cc;
  live = l.1;
}
recv-Receives (segment (d ∷ x ∷ ds) ∷ es) c bs l e = record {
  after = segment (x ∷ ds) ∷ es;
  byte = cc;
  left = cc;
  live = (omega arith, l.1);
}

take-take-append : (n : ℕ) (bs zs : Bytes) → n ≤ length bs → take n (take n bs ++ zs) ≡ take n bs
take-take-append zero bs zs h = refl
take-take-append (suc n) [] zs h = absurd (omega arith)
take-take-append (suc n) (b ∷ bs) zs h = ap (◌∷◌ b) (take-take-append n bs zs (omega arith))

pub serve_read :
    {A : Type 0} (n : ℕ) (k : Bytes → Proc A) (bs : Bytes) {s : Served A}
    → serve (read n k) bs ≡ some s
    → (0 < n) × (n ≤ length bs) × (serve (k (take n bs)) (drop n bs) ≡ some s)
unfolding serve
serve_read {A} n k bs {s} h = elim (Bool-cases (ltb 0 n && leb n (length bs))) [
  | inl t ↦ (ground arith, ground arith, rw (t, serve) at h)
  | inr f ↦
      let nothing : ◌≡◌ {A = Option (Served A)} none (some s) = rw (f, serve) at h in absurd (cc)
]

pub serve_transmit :
    {A : Type 0} (m : Bytes) (r : Option (Served A)) {s : Served A}
    → also_sent m r ≡ some s
    → (t : Served A) × (r ≡ some t) × (s ≡ record t { sent = m ∷ t.sent })
serve_transmit m none h = absurd (cc)
serve_transmit m (some t) h = (t, refl, cc)

-- `run` unfolds the three calls: these equations hold without that.
run-read :
    {A : Type 0} (n : ℕ) (k : Bytes → Proc A) (w : World) {r : Read}
    → read_events w n ≡ some r
    → run (read n k) w ≡ run (k (fill n r.buf)) (record w { incoming = r.rest })
unfolding run
run-read n k w e = rw (e, run)

read_events_open : (w : World) (n : ℕ) → w.is_open ≡ true → read_events w n ≡ frecv n w.incoming
unfolding read_events
read_events_open w n e = rw e

receive_event_open :
    (w : World) (bs : Bytes) (es : List Event)
    → w.is_open ≡ true
    → recv 1 w.incoming ≡ Recv.got bs es
    → receive_event w ≡ (one_byte bs, es)
unfolding receive_event
receive_event_open w bs es e h = rw (e, receive_event) (rw h)

send_event_open : (w : World) (m : Bytes) → w.is_open ≡ true → w.sends ≡ [] → send_event w m ≡ true
unfolding send_event
send_event_open w m e h = rw (e, h)

run_read :
    {A : Type 0} (n : ℕ) (k : Bytes → Proc A) (w : World) (bs : Bytes)
    → IsReady w bs
    → 0 < n
    → n ≤ length bs
    → (w' : World) × (run (read n k) w ≡ run (k (take n bs)) w')
      × IsReady w' (drop n bs)
      × (w'.sent ≡ w.sent)
run_read n k w bs r pos fits =
    let r' : Reads n w.incoming (frecv n w.incoming) =
      frecv-Reads n w.incoming r.live pos (rw r.arrives fits) in
    let arrived : fill n (take n (stream w.incoming)) ≡ take n bs =
      rw r.arrives (take-take-append n bs (replicate n 0) fits) in
    let w' : World = record w { incoming = r'.rest } in
    (
      w',
      run-read n k w (read_events_open w n r.open_socket ∙ r'.returns)
          ∙ ap (λ x. run (k x) w') arrived,
      record {
        open_socket = r.open_socket;
        accepted = r.accepted;
        live = r'.live;
        arrives = r'.remains ∙ ap (drop n) r.arrives;
      },
      refl,
    )

run_receive :
    {A : Type 0} (k : Option ℕ → Proc A) (w : World) (c : ℕ) (bs : Bytes)
    → IsReady w (c ∷ bs)
    → (w' : World) × (run (receive k) w ≡ run (k (some c)) w') × IsReady w' bs × (w'.sent ≡ w.sent)
unfolding run
run_receive k w c bs r =
    let g : Receives w.incoming c bs = recv-Receives w.incoming c bs r.live r.arrives in
    let e : receive_event w ≡ (some c, g.after) =
      receive_event_open w (c ∷ []) g.after r.open_socket g.byte in
    (
      record w { incoming = g.after },
      ap (λ (x : Option ℕ × List Event). run (k x.0) (record w { incoming = x.1 })) e,
      record {
        open_socket = r.open_socket;
        accepted = r.accepted;
        live = g.live;
        arrives = g.left;
      },
      refl,
    )

run_transmit :
    {A : Type 0} (m : Bytes) (k : Bool → Proc A) (w : World) (bs : Bytes)
    → IsReady w bs
    → (w' : World) × (run (transmit m k) w ≡ run (k true) w')
      × IsReady w' bs
      × (w'.sent ≡ w.sent ++ m ∷ [])
unfolding run
run_transmit m k w bs r = (
  record w { sends = later_sends w.sends; sent = w.sent ++ m ∷ [] },
  rw (send_event_open w m r.open_socket r.accepted, run),
  record {
    open_socket = r.open_socket;
    accepted = ap later_sends r.accepted;
    live = r.live;
    arrives = r.arrives;
  },
  refl,
)

-- Let the socket be open, every `send` be accepted, and every segment hold a byte. A routine that serves over the byte stream then ends in
-- the same way, with the same messages sent, over every sequence of events that carries this stream.
pub run-serve :
    {A : Type 0} (p : Proc A) (w : World) (bs : Bytes) {s : Served A}
    → IsReady w bs
    → serve p bs ≡ some s
    → Ends w s (run p w)
unfolding serve
run-serve (ret a) w bs {s} r h =
    let e : record { value = a; rest = bs; sent = [] } ≡ s = cc in
    rw (← e) (record {
      world = w;
      finishes = unfold run in refl;
      ready = r;
      messages = sym (append-nil w.sent);
    })
run-serve fails w bs r h = absurd (cc)
run-serve (read n k) w bs r h =
    let (pos, fits, h') = serve_read n k bs h in
    let (w', step, r', same) = run_read n k w bs r pos fits in
    let rest = run-serve (k (take n bs)) w' (drop n bs) r' h' in
    record {
      world = rest.world;
      finishes = step ∙ rest.finishes;
      ready = rest.ready;
      messages = rest.messages ∙ rw same;
    }
run-serve (receive k) w [] r h = absurd (cc)
run-serve (receive k) w (c ∷ bs) r h =
    let (w', step, r', same) = run_receive k w c bs r in
    let rest = run-serve (k (some c)) w' bs r' h in
    record {
      world = rest.world;
      finishes = step ∙ rest.finishes;
      ready = rest.ready;
      messages = rest.messages ∙ rw same;
    }
run-serve (transmit m k) w bs r h =
    let (t, h', e) = serve_transmit m (serve (k true) bs) h in
    let (w', step, r', same) = run_transmit m k w bs r in
    let rest = run-serve (k true) w' bs r' h' in
    rw e (record {
      world = rest.world;
      finishes = step ∙ rest.finishes;
      ready = rest.ready;
      messages = rest.messages ∙ rw same (append_assoc w.sent (m ∷ []) t.sent);
    })
run-serve (close p) w bs r h = absurd (cc)
