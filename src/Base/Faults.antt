-- ===== src/Base/Faults.antt =====
-- Computations that may run into undefined behaviour.
use mathlib.Core.Path.{◌≡◌, refl, subst}
use mathlib.Core.Bool.{Bool, true, false}
use pdo_4d.Base.Tests.{if◌then◌else◌}

-- `fault`: an access outside an array, or through a null pointer.
pub data Outcome {ℓ} (A : Type ℓ) : Type ℓ where
  ok : A → Outcome A
  fault : Outcome A

infixl 5 ◌>>=◌
abbrev pub ◌>>=◌ {ℓ κ} : {S : Type ℓ} {T : Type κ} → Outcome S → (S → Outcome T) → Outcome T
ok s >>= k = k s
fault >>= k = fault

-- Inversion of a bind that ended well.
pub >>=-eq-ok {ℓ κ} :
    {S : Type ℓ} {T : Type κ} (first : Outcome S) (then' : S → Outcome T) {t : T}
    → (first >>= then') ≡ ok t
    → (s : S) × (first ≡ ok s) × (then' s ≡ ok t)
>>=-eq-ok (ok s) then' ended = (s, refl, ended)
>>=-eq-ok fault then' ended = absurd (cc)

-- What holds of the value, if there is one.
abbrev pub WhenOk {ℓ} : {S : Type ℓ} → (S → Type 0) → Outcome S → Type 0
WhenOk P (ok s) = P s
WhenOk P fault = Unit

pub WhenOk-bind {ℓ κ} :
    {S : Type ℓ} {T : Type κ} (P : S → Type 0) (Q : T → Type 0) (first : Outcome S)
    (then' : S → Outcome T)
    → WhenOk P first
    → ((s : S) → P s → WhenOk Q (then' s))
    → WhenOk Q (first >>= then')
WhenOk-bind P Q (ok s) then' h g = g s h
WhenOk-bind P Q fault then' h g = tt

pub WhenOk-any {ℓ} : {S : Type ℓ} (first : Outcome S) → WhenOk (λ s. Unit) first
WhenOk-any (ok s) = tt
WhenOk-any fault = tt

pub WhenOk-eq {ℓ} :
    {S : Type ℓ} (P : S → Type 0) (first : Outcome S) {s : S} → WhenOk P first → first ≡ ok s → P s
WhenOk-eq P (ok t) h e = subst (WhenOk P) e h
WhenOk-eq P fault h e = absurd (cc)

pub WhenOk-if {ℓ} :
    {S : Type ℓ} (P : S → Type 0) (b : Bool) (m n : Outcome S)
    → WhenOk P m
    → WhenOk P n
    → WhenOk P (if b then m else n)
WhenOk-if P true m n h g = h
WhenOk-if P false m n h g = g
