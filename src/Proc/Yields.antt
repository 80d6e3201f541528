-- ===== src/Proc/Yields.antt =====
-- Rules for what a routine that only reads makes of the byte stream.
use pdo_4d.Base.{
  ℕ, ◌≤◌, ◌<◌, ◌≡◌, refl, ap, subst, ◌∙◌, arith, true, some, [], ◌∷◌, ◌++◌, Bytes, length,
  length-append, take, take-append, drop, drop-append, ltb, leb, ◌&&◌,
}
use pdo_4d.Proc.{Proc, ret, fails, read, receive, transmit, close, ◌>>=◌}
use pdo_4d.Proc.Refine.{Served, serve, serve_read, serve_transmit}

-- Over the stream `bs` the routine returns `a`, sends nothing and leaves `rest`.
abbrev pub Yields : {A : Type 0} → Proc A → Bytes → A → Bytes → Type 0
Yields p bs a rest = serve p bs ≡ some (record { value = a; rest = rest; sent = [] })

serve-read :
    {A : Type 0} (n : ℕ) (k : Bytes → Proc A) (bs : Bytes)
    → 0 < n
    → n ≤ length bs
    → serve (read n k) bs ≡ serve (k (take n bs)) (drop n bs)
unfolding serve
serve-read n k bs pos fits =
    let enough : (ltb 0 n && leb n (length bs)) ≡ true = ground arith in rw (enough, serve)

-- Both parts of a sequence, the messages in order.
pub serve-bind :
    {A B : Type 0} (p : Proc A) (f : A → Proc B) (bs : Bytes) {s : Served A} {t : Served B}
    → serve p bs ≡ some s
    → serve (f s.value) s.rest ≡ some t
    → serve (p >>= f) bs ≡ some (record t { sent = s.sent ++ t.sent })
unfolding serve
serve-bind {A} {B} (ret a) f bs {s} {t} h g =
    let e : record { value = a; rest = bs; sent = [] } ≡ s = cc in
    subst
      (λ (s : Served A).
        serve (f s.value) s.rest ≡ some t
        → serve (f a) bs ≡ some (record t { sent = s.sent ++ t.sent }))
      e (λ g. g) g
serve-bind fails f bs h g = absurd (cc)
serve-bind (read n k) f bs h g =
    let (pos, fits, h') = serve_read n k bs h in
    serve-read n (λ x. k x >>= f) bs pos fits ∙ serve-bind (k (take n bs)) f (drop n bs) h' g
serve-bind (receive k) f [] h g = absurd (cc)
serve-bind (receive k) f (c ∷ bs) h g = serve-bind (k (some c)) f bs h g
serve-bind {A} {B} (transmit m k) f bs {s} {t} h g =
    let (u, h', e) = serve_transmit m (serve (k true) bs) h in
    let later = serve-bind (k true) f bs {s = u} {t = t} h' (rw e at g) in rw later (ap some (rw e))
serve-bind (close p) f bs h g = absurd (cc)

module _ {A B : Type 0} where
  pub Yields-bind :
      (p : Proc A) (f : A → Proc B) (bs : Bytes) {a : A} {mid : Bytes} {b : B} {rest : Bytes}
      → Yields p bs a mid
      → Yields (f a) mid b rest
      → Yields (p >>= f) bs b rest
  Yields-bind p f bs h g = serve-bind p f bs h g

pub Yields-ret : {A : Type 0} (a : A) (rest : Bytes) → Yields (ret a) rest a rest
unfolding serve
Yields-ret a rest = refl

pub Yields-read :
    {A : Type 0} (n : ℕ) (xs rest : Bytes) (k : Bytes → Proc A) {a : A} {rest' : Bytes}
    → n ≡ length xs
    → 0 < n
    → Yields (k xs) rest a rest'
    → Yields (read n k) (xs ++ rest) a rest'
Yields-read n xs rest k e pos y =
    serve-read n k (xs ++ rest) pos (omega (arith, length-append {0} xs rest))
    ∙ rw (take-append xs rest n e, drop-append xs rest n e) y
