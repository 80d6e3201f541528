-- ===== src/Strip/Laws.antt =====
-- What `strstrip` leaves.
use pdo_4d.Base.{
  ℕ, zero, suc, false, [], ◌∷◌, ◌++◌, ◌==◌, ◌≡◌, ◌≢◌, refl, Bytes, replicate, append_assoc, arith,
}
use pdo_4d.Strip.{trim_end, trim_start, strstrip}

-- A text that neither begins nor ends with a space.
pub data IsTrimmed : Bytes → Type 0 where
  one : {c : ℕ} → c ≢ b' ' → IsTrimmed (c ∷ [])
  more : {c d : ℕ} (middle : Bytes) → c ≢ b' ' → d ≢ b' ' → IsTrimmed (c ∷ (middle ++ d ∷ []))

abbrev spaces : ℕ → Bytes
spaces n = replicate n b' '

trim_end-spaces : (n : ℕ) → trim_end (spaces n) ≡ []
trim_end-spaces zero = refl
trim_end-spaces (suc n) = rw (trim_end-spaces n) refl

trim_end-last :
    (middle : Bytes) (d n : ℕ) → d ≢ b' ' → trim_end (middle ++ (d ∷ spaces n)) ≡ middle ++ d ∷ []
trim_end-last [] d n h =
    let q : (d == b' ') ≡ false = ground (arith, h) in rw (trim_end-spaces n, q) refl
trim_end-last (c ∷ []) d n h = rw (trim_end-last [] d n h) refl
trim_end-last (c ∷ e ∷ m) d n h = rw (trim_end-last (e ∷ m) d n h) refl

-- The spaces in front stay in the buffer and are skipped by the pointer.
front : (m : ℕ) (rest : Bytes) (c : ℕ) → c ≢ b' ' → trim_start (spaces m ++ (c ∷ rest)) ≡ c ∷ rest
front zero rest c h = let q : (c == b' ') ≡ false = ground (arith, h) in rw q refl
front (suc m) rest c h = front m rest c h

strstrip-last :
    (p : Bytes) (d n : ℕ)
    → d ≢ b' '
    → strstrip (p ++ (d ∷ spaces n))
      ≡ record { buffer = p ++ (d ∷ []); returned = trim_start (p ++ (d ∷ [])) }
unfolding strstrip
strstrip-last [] d n h = rw (trim_end-spaces n) refl
strstrip-last (c ∷ p) d n h = rw (trim_end-last p d n h) refl

-- Of a text between spaces, `strstrip` returns a pointer to the text alone; the buffer loses the spaces behind the text, and keeps those in front.
pub strstrip-replicate :
    (m n : ℕ) (w : Bytes)
    → IsTrimmed w
    → strstrip (replicate m b' ' ++ (w ++ replicate n b' '))
      ≡ record { buffer = replicate m b' ' ++ w; returned = w }
strstrip-replicate m n (c ∷ []) (IsTrimmed.one h) =
    rw (strstrip-last (spaces m) c n h, front m [] c h) refl
strstrip-replicate m n _ (IsTrimmed.more {c} {d} middle h g) =
    let w : Bytes = c ∷ (middle ++ (d ∷ [])) in
    let p : Bytes = spaces m ++ (c ∷ middle) in
    let text : spaces m ++ (w ++ spaces n) ≡ p ++ (d ∷ spaces n) =
      rw
        (
          append_assoc middle (d ∷ []) (spaces n),
          append_assoc (spaces m) (c ∷ middle) (d ∷ spaces n),
        )
        refl in
    let whole : p ++ (d ∷ []) ≡ spaces m ++ w = append_assoc (spaces m) (c ∷ middle) (d ∷ []) in
    rw (text, strstrip-last p d n g, whole, front m (middle ++ (d ∷ [])) c h) refl
