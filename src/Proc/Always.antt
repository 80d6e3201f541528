-- ===== src/Proc/Always.antt =====
-- What holds of every value that a routine returns, whatever the network does.
use pdo_4d.Base.{
  ℕ, Bool, true, false, Option, if◌then◌else◌, [], ◌∷◌, ◌++◌, Option-cases, Bool-cases, inl, inr,
  Bytes,
}
use pdo_4d.Proc.{
  Proc, ret, fails, read, receive, transmit, close, ◌>>=◌, World, Final, finished, run, fill,
  read_events, receive_event, send_event, later_sends,
}

abbrev pub Always : {A : Type 0} → (A → Type 0) → Proc A → Type 0
Always P (ret a) = P a
Always P fails = Unit
Always P (read n k) = (bs : Bytes) → Always P (k bs)
Always P (receive k) = (c : Option ℕ) → Always P (k c)
Always P (transmit m k) = (b : Bool) → Always P (k b)
Always P (close p) = Always P p

module _ {A B : Type 0} where
  -- Behind a routine of which nothing is known.
  pub Always-after :
      (Q : B → Type 0) (p : Proc A) (f : A → Proc B)
      → ((a : A) → Always Q (f a))
      → Always Q (p >>= f)
  Always-after Q (ret a) f h = h a
  Always-after Q fails f h = tt
  Always-after Q (read n k) f h = λ bs. Always-after Q (k bs) f h
  Always-after Q (receive k) f h = λ c. Always-after Q (k c) f h
  Always-after Q (transmit m k) f h = λ b. Always-after Q (k b) f h
  Always-after Q (close p) f h = Always-after Q p f h

  pub Always-bind :
      (P : A → Type 0) (Q : B → Type 0) (p : Proc A) (f : A → Proc B)
      → Always P p
      → ((a : A) → P a → Always Q (f a))
      → Always Q (p >>= f)
  Always-bind P Q (ret a) f h g = g a h
  Always-bind P Q fails f h g = tt
  Always-bind P Q (read n k) f h g = λ bs. Always-bind P Q (k bs) f (h bs) g
  Always-bind P Q (receive k) f h g = λ c. Always-bind P Q (k c) f (h c) g
  Always-bind P Q (transmit m k) f h g = λ b. Always-bind P Q (k b) f (h b) g
  Always-bind P Q (close p) f h g = Always-bind P Q p f h g

pub Always-mono :
    {A : Type 0} (P Q : A → Type 0) (p : Proc A) → Always P p → ((a : A) → P a → Q a) → Always Q p
Always-mono P Q (ret a) h f = f a h
Always-mono P Q fails h f = tt
Always-mono P Q (read n k) h f = λ bs. Always-mono P Q (k bs) (h bs) f
Always-mono P Q (receive k) h f = λ c. Always-mono P Q (k c) (h c) f
Always-mono P Q (transmit m k) h f = λ b. Always-mono P Q (k b) (h b) f
Always-mono P Q (close p) h f = Always-mono P Q p h f

pub Always-if :
    {A : Type 0} (P : A → Type 0) (b : Bool) (p q : Proc A)
    → Always P p
    → Always P q
    → Always P (if b then p else q)
Always-if P true p q h g = h
Always-if P false p q h g = g

-- A value that a run ends with.
pub data Returns {A : Type 0} : Final A → A → Type 0 where
  returns : (a : A) (w : World) → Returns (finished a w) a

pub run-Always :
    {A : Type 0} (P : A → Type 0) (p : Proc A) (w : World) {a : A}
    → Always P p
    → Returns (run p w) a
    → P a
unfolding run
run-Always P (ret a) w h (Returns.returns _ _) = h
run-Always P (read n k) w h r = elim (Option-cases (read_events w n)) [
  | inl e ↦ elim (rw (e, run) at r) [ ]
  | inr (x, e) ↦
      run-Always P (k (fill n x.buf)) (record w { incoming = x.rest }) (h (fill n x.buf))
        (rw (e, run) at r)
]
run-Always P (receive k) w h r =
    run-Always P (k (receive_event w).0) (record w { incoming = (receive_event w).1 })
      (h ((receive_event w).0)) r
run-Always P (transmit m k) w h r = elim (Bool-cases (send_event w m)) [
  | inl e ↦
      run-Always P (k true) (record w { sends = later_sends w.sends; sent = w.sent ++ m ∷ [] })
        (h true) (rw (e, run) at r)
  | inr e ↦
      run-Always P (k false) (record w { sends = later_sends w.sends }) (h false) (rw (e, run) at r)
]
run-Always P (close p) w h r = run-Always P p (record w { is_open = false }) h r
run-Always P fails w h r = elim r [ ]

module _ {A B : Type 0} where
  -- Both parts of a sequence that ends.
  pub run-bind :
      (p : Proc A) (f : A → Proc B) (w : World) {b : B}
      → Returns (run (p >>= f) w) b
      → (a : A) × (later : World) × Returns (run p w) a × Returns (run (f a) later) b
  unfolding run
  run-bind (ret a) f w r = (a, w, Returns.returns a w, r)
  run-bind (read n k) f w r = elim (Option-cases (read_events w n)) [
    | inl e ↦ elim (rw (e, run) at r) [ ]
    | inr (x, e) ↦
        rw (e, run)
          (run-bind (k (fill n x.buf)) f (record w { incoming = x.rest }) (rw (e, run) at r))
  ]
  run-bind (receive k) f w r =
      run-bind (k (receive_event w).0) f (record w { incoming = (receive_event w).1 }) r
  run-bind (transmit m k) f w r = elim (Bool-cases (send_event w m)) [
    | inl e ↦
        rw (e, run)
          (run-bind (k true) f (record w { sends = later_sends w.sends; sent = w.sent ++ m ∷ [] })
            (rw (e, run) at r))
    | inr e ↦
        rw (e, run)
          (run-bind (k false) f (record w { sends = later_sends w.sends }) (rw (e, run) at r))
  ]
  run-bind (close p) f w r = run-bind p f (record w { is_open = false }) r
  run-bind fails f w r = elim r [ ]
