-- ===== src/Proc/Hangs.antt =====
-- A routine hangs only in a call of `frecv`.
use pdo_4d.Base.{
  ℕ, ◌≢◌, Bool, true, false, Option, Bool-cases, inl, inr, if◌then◌else◌, [], ◌∷◌, ◌++◌, Outcome,
  ok, fault,
}
use pdo_4d.Proc.{
  Proc, ret, fails, read, receive, transmit, close, pure, ◌>>=◌, World, hung, run, receive_event,
  send_event, later_sends,
}

-- No call of `frecv`; `recv` is called for single bytes.
abbrev pub ByBytes : {A : Type 0} → Proc A → Type 0
ByBytes (ret a) = Unit
ByBytes fails = Unit
ByBytes (read n k) = ⊥
ByBytes (receive k) = (c : Option ℕ) → ByBytes (k c)
ByBytes (transmit m k) = (b : Bool) → ByBytes (k b)
ByBytes (close p) = ByBytes p

module _ {A B : Type 0} where
  pub ByBytes-bind :
      (p : Proc A) (f : A → Proc B) → ByBytes p → ((a : A) → ByBytes (f a)) → ByBytes (p >>= f)
  ByBytes-bind (ret a) f h g = g a
  ByBytes-bind fails f h g = tt
  ByBytes-bind (read n k) f h g = absurd h
  ByBytes-bind (receive k) f h g = λ c. ByBytes-bind (k c) f (h c) g
  ByBytes-bind (transmit m k) f h g = λ b. ByBytes-bind (k b) f (h b) g
  ByBytes-bind (close p) f h g = ByBytes-bind p f h g

module _ {A : Type 0} where
  pub ByBytes-if : (b : Bool) (p q : Proc A) → ByBytes p → ByBytes q → ByBytes (if b then p else q)
  ByBytes-if true p q h g = h
  ByBytes-if false p q h g = g

  pub pure-ByBytes : (x : Outcome A) → ByBytes (pure x)
  pure-ByBytes (ok a) = tt
  pure-ByBytes fault = tt

  pub run-ByBytes : (p : Proc A) (w : World) → ByBytes p → run p w ≢ hung
  unfolding run
  run-ByBytes (ret a) w h e = absurd (cc)
  run-ByBytes fails w h e = absurd (cc)
  run-ByBytes (read n k) w h e = absurd h
  run-ByBytes (receive k) w h e =
      run-ByBytes (k (receive_event w).0) (record w { incoming = (receive_event w).1 })
        (h ((receive_event w).0)) e
  run-ByBytes (transmit m k) w h e = elim (Bool-cases (send_event w m)) [
    | inl b ↦
        run-ByBytes (k true) (record w { sends = later_sends w.sends; sent = w.sent ++ m ∷ [] })
          (h true) (rw (b, run) at e)
    | inr b ↦
        run-ByBytes (k false) (record w { sends = later_sends w.sends }) (h false)
          (rw (b, run) at e)
  ]
  run-ByBytes (close p) w h e = run-ByBytes p (record w { is_open = false }) h e
