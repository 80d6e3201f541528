-- ===== src/Proc/Keeps.antt =====
-- What holds of a routine's outcome together with whether the socket is open then.
use pdo_4d.Base.{
  ℕ, ◌≡◌, refl, Bool, true, false, Option, none, if◌then◌else◌, [], ◌∷◌, ◌++◌, Option-cases,
  Bool-cases, inl, inr, Bytes, Outcome, ok, fault,
}
use pdo_4d.Proc.{
  Proc, ret, fails, read, receive, transmit, close, pure, ◌>>=◌, World, Final, finished, run, fill,
  read_events, receive_event, send_event, later_sends,
}

-- From a socket that is open or closed: a closed one gives no byte and takes no message.
abbrev pub Keeps : {A : Type 0} → (Bool → A → Type 0) → Bool → Proc A → Type 0
Keeps P o (ret a) = P o a
Keeps P o fails = Unit
Keeps P o (read n k) = (bs : Bytes) → Keeps P o (k bs)
Keeps P o (receive k) = (c : Option ℕ) → (o ≡ false → c ≡ none) → Keeps P o (k c)
Keeps P o (transmit m k) = (b : Bool) → (o ≡ false → b ≡ false) → Keeps P o (k b)
Keeps P o (close p) = Keeps P false p

-- The routine closes nothing.
abbrev pub Silent : {A : Type 0} → Proc A → Type 0
Silent (ret a) = Unit
Silent fails = Unit
Silent (read n k) = (bs : Bytes) → Silent (k bs)
Silent (receive k) = (c : Option ℕ) → Silent (k c)
Silent (transmit m k) = (b : Bool) → Silent (k b)
Silent (close p) = ⊥

module _ {A B : Type 0} where
  pub Keeps-bind :
      (P : Bool → A → Type 0) (Q : Bool → B → Type 0) (o : Bool) (p : Proc A) (f : A → Proc B)
      → Keeps P o p
      → ((o' : Bool) (a : A) → P o' a → Keeps Q o' (f a))
      → Keeps Q o (p >>= f)
  Keeps-bind P Q o (ret a) f h g = g o a h
  Keeps-bind P Q o fails f h g = tt
  Keeps-bind P Q o (read n k) f h g = λ bs. Keeps-bind P Q o (k bs) f (h bs) g
  Keeps-bind P Q o (receive k) f h g = λ c e. Keeps-bind P Q o (k c) f (h c e) g
  Keeps-bind P Q o (transmit m k) f h g = λ b e. Keeps-bind P Q o (k b) f (h b e) g
  Keeps-bind P Q o (close p) f h g = Keeps-bind P Q false p f h g

  pub Keeps-after-Silent :
      (Q : Bool → B → Type 0) (o : Bool) (p : Proc A) (f : A → Proc B)
      → Silent p
      → ((a : A) → Keeps Q o (f a))
      → Keeps Q o (p >>= f)
  Keeps-after-Silent Q o (ret a) f h g = g a
  Keeps-after-Silent Q o fails f h g = tt
  Keeps-after-Silent Q o (read n k) f h g = λ bs. Keeps-after-Silent Q o (k bs) f (h bs) g
  Keeps-after-Silent Q o (receive k) f h g = λ c e. Keeps-after-Silent Q o (k c) f (h c) g
  Keeps-after-Silent Q o (transmit m k) f h g = λ b e. Keeps-after-Silent Q o (k b) f (h b) g
  Keeps-after-Silent Q o (close p) f h g = absurd h

  pub Silent-bind :
      (p : Proc A) (f : A → Proc B) → Silent p → ((a : A) → Silent (f a)) → Silent (p >>= f)
  Silent-bind (ret a) f h g = g a
  Silent-bind fails f h g = tt
  Silent-bind (read n k) f h g = λ bs. Silent-bind (k bs) f (h bs) g
  Silent-bind (receive k) f h g = λ c. Silent-bind (k c) f (h c) g
  Silent-bind (transmit m k) f h g = λ b. Silent-bind (k b) f (h b) g
  Silent-bind (close p) f h g = absurd h

module _ {A : Type 0} where
  -- Of the outcome nothing is said.
  pub Keeps-any : (o : Bool) (p : Proc A) → Keeps (λ o' a. Unit) o p
  Keeps-any o (ret a) = tt
  Keeps-any o fails = tt
  Keeps-any o (read n k) = λ bs. Keeps-any o (k bs)
  Keeps-any o (receive k) = λ c e. Keeps-any o (k c)
  Keeps-any o (transmit m k) = λ b e. Keeps-any o (k b)
  Keeps-any o (close p) = Keeps-any false p

  pub Keeps-mono :
      (P Q : Bool → A → Type 0) (o : Bool) (p : Proc A)
      → Keeps P o p
      → ((o' : Bool) (a : A) → P o' a → Q o' a)
      → Keeps Q o p
  Keeps-mono P Q o (ret a) h f = f o a h
  Keeps-mono P Q o fails h f = tt
  Keeps-mono P Q o (read n k) h f = λ bs. Keeps-mono P Q o (k bs) (h bs) f
  Keeps-mono P Q o (receive k) h f = λ c e. Keeps-mono P Q o (k c) (h c e) f
  Keeps-mono P Q o (transmit m k) h f = λ b e. Keeps-mono P Q o (k b) (h b e) f
  Keeps-mono P Q o (close p) h f = Keeps-mono P Q false p h f

  pub pure-Silent : (x : Outcome A) → Silent (pure x)
  pure-Silent (ok a) = tt
  pure-Silent fault = tt

  pub Keeps-if :
      (P : Bool → A → Type 0) (o b : Bool) (p q : Proc A)
      → (b ≡ true → Keeps P o p)
      → (b ≡ false → Keeps P o q)
      → Keeps P o (if b then p else q)
  Keeps-if P o true p q h g = h refl
  Keeps-if P o false p q h g = g refl

  pub Silent-if : (b : Bool) (p q : Proc A) → Silent p → Silent q → Silent (if b then p else q)
  Silent-if true p q h g = h
  Silent-if false p q h g = g

-- A run that ends with a value, in a world.
pub data Finishes {A : Type 0} : Final A → A → World → Type 0 where
  finishes : (a : A) (w : World) → Finishes (finished a w) a w

receive_closed : (w : World) → w.is_open ≡ false → (receive_event w).0 ≡ none
unfolding receive_event
receive_closed w e = rw (e, receive_event) refl

send_closed : (w : World) (m : Bytes) → w.is_open ≡ false → send_event w m ≡ false
unfolding send_event
send_closed w m e = rw (e, send_event) refl

pub opened_and_closed : (b : Bool) → b ≡ true → b ≡ false → ⊥
opened_and_closed b e f = absurd (cc)

pub run-Keeps :
    {A : Type 0} (P : Bool → A → Type 0) (p : Proc A) (w : World) {a : A} {w' : World}
    → Keeps P w.is_open p
    → Finishes (run p w) a w'
    → P w'.is_open a
unfolding run
run-Keeps P (ret a) w h (Finishes.finishes _ _) = h
run-Keeps P (read n k) w h r = elim (Option-cases (read_events w n)) [
  | inl e ↦ elim (rw (e, run) at r) [ ]
  | inr (x, e) ↦
      run-Keeps P (k (fill n x.buf)) (record w { incoming = x.rest }) (h (fill n x.buf))
        (rw (e, run) at r)
]
run-Keeps P (receive k) w h r =
    run-Keeps P (k (receive_event w).0) (record w { incoming = (receive_event w).1 })
      (h ((receive_event w).0) (receive_closed w)) r
run-Keeps P (transmit m k) w h r = elim (Bool-cases (send_event w m)) [
  | inl e ↦
      run-Keeps P (k true) (record w { sends = later_sends w.sends; sent = w.sent ++ m ∷ [] })
        (h true (λ c. absurd (opened_and_closed (send_event w m) e (send_closed w m c))))
        (rw (e, run) at r)
  | inr e ↦
      run-Keeps P (k false) (record w { sends = later_sends w.sends }) (h false (λ c. refl))
        (rw (e, run) at r)
]
run-Keeps P (close p) w h r = run-Keeps P p (record w { is_open = false }) h r
run-Keeps P fails w h r = elim r [ ]
