-- ===== src/Receive/HeaderLaws.antt =====
-- The end of a header in the byte stream.
use pdo_4d.Base.{
  ℕ, zero, suc, ◌<◌, ◌≡◌, ◌≢◌, take, starts_with, ◌&&◌, ap₂, Bool, Bool-cases, inl, inr, ==_iff,
  cstr, refl, sym, ap, ◌∙◌, arith, true, false, [], ◌∷◌, ◌++◌, append_assoc, Bytes, length, ◌==◌,
}
use pdo_4d.Connection.{FourdResult, max_header_size}
use pdo_4d.Proc.{ret}
use pdo_4d.Proc.Refine.{serve}
use pdo_4d.Proc.Yields.{Yields, Yields-bind, Yields-ret}
use pdo_4d.Receive.{reversed_onto, at_end, header_loop, with_header, socket_receiv_header}

-- The last four bytes of a text that is given last byte first, when they are CR LF CR LF.
abbrev pub empty_line : Bytes
empty_line = b'\n' ∷ b'\r' ∷ b'\n' ∷ b'\r' ∷ []

-- The empty line ends at the last byte of the text and at no byte before; `before` are the bytes in front of it, last first.
pub data EndsFirst : Bytes → Bytes → Type 0 where
  here : {before : Bytes} {c : ℕ} → take 4 (c ∷ before) ≡ empty_line → EndsFirst before (c ∷ [])
  later :
      {before : Bytes} {c : ℕ} {rest : Bytes}
      → take 4 (c ∷ before) ≢ empty_line
      → EndsFirst (c ∷ before) rest
      → EndsFirst before (c ∷ rest)

and_true : (a b : Bool) → (a && b) ≡ true → (a ≡ true) × (b ≡ true)
and_true a b e = ground arith

starts_with-take : (p s : Bytes) → starts_with p s ≡ true → take (length p) s ≡ p
starts_with-take [] s e = refl
starts_with-take (x ∷ p) [] e = absurd (cc)
starts_with-take (x ∷ p) (y ∷ s) e =
    let (same, more) = and_true (x == y) (starts_with p s) e in
    let here : y ≡ x = sym ((==_iff x y).0 same) in ap₂ ◌∷◌ here (starts_with-take p s more)

same_head : (x y : ℕ) (p s : Bytes) → ◌≡◌ {A = Bytes} (y ∷ s) (x ∷ p) → (y ≡ x) × (s ≡ p)
same_head x y p s e = (cc, cc)

take-starts_with : (p s : Bytes) → take (length p) s ≡ p → starts_with p s ≡ true
take-starts_with [] s e = refl
take-starts_with (x ∷ p) [] e = absurd (cc)
take-starts_with (x ∷ p) (y ∷ s) e =
    let (head, tail) = same_head x y p (take (length p) s) e in
    let same : (x == y) ≡ true = (==_iff x y).1 (sym head) in
    rw (same, take-starts_with p s tail) refl

at_end-empty_line : (s : Bytes) → take 4 s ≡ empty_line → at_end s ≡ true
at_end-empty_line s e = take-starts_with empty_line s e

pub at_end-true : (s : Bytes) → at_end s ≡ true → take 4 s ≡ empty_line
at_end-true s e = starts_with-take empty_line s e

at_end-other : (s : Bytes) → take 4 s ≢ empty_line → at_end s ≡ false
at_end-other s n = elim (Bool-cases (at_end s)) [ inl e ↦ absurd (n (at_end-true s e)) | inr e ↦ e ]

pub at_end-false : (s : Bytes) → at_end s ≡ false → take 4 s ≢ empty_line
at_end-false s e same = let no : true ≡ false = sym (at_end-empty_line s same) ∙ e in absurd (cc)

reversed_onto-append : (xs ys : Bytes) → reversed_onto xs ys ≡ reversed_onto xs [] ++ ys
reversed_onto-append [] ys = refl
reversed_onto-append (x ∷ xs) ys =
    reversed_onto-append xs (x ∷ ys)
    ∙ sym (append_assoc (reversed_onto xs []) (x ∷ []) ys)
    ∙ ap (λ zs. zs ++ ys) (sym (reversed_onto-append xs (x ∷ [])))

header_loop-EndsFirst :
    (room : ℕ) (before h rest : Bytes)
    → EndsFirst before h
    → length h < room
    → Yields
        (header_loop room before)
        (h ++ rest)
        (record { text = reversed_onto before [] ++ h; ended = true })
        rest
unfolding serve header_loop
header_loop-EndsFirst zero before h rest e lt = absurd (omega arith)
header_loop-EndsFirst (suc room) before [] rest e lt = elim e [ ]
header_loop-EndsFirst (suc room) before (c ∷ []) rest (EndsFirst.here e) lt =
    let some_room : (room == 0) ≡ false = ground arith in
    rw (at_end-empty_line (c ∷ before) e, some_room, serve, header_loop)
      (rw (reversed_onto-append before (c ∷ [])) refl)
header_loop-EndsFirst (suc room) before (c ∷ h) rest (EndsFirst.later e l) lt =
    let ih = header_loop-EndsFirst room (c ∷ before) h rest l (omega arith) in
    let text : reversed_onto (c ∷ before) [] ++ h ≡ reversed_onto before [] ++ (c ∷ h) =
      rw (reversed_onto-append before (c ∷ []))
        (append_assoc (reversed_onto before []) (c ∷ []) h) in
    rw (at_end-other (c ∷ before) e, serve, header_loop) (rw text at ih)

-- From a stream that begins with a header of less than 1 MiB, whose first empty line is its end,
-- `socket_receiv_header` takes this header and no further byte, and returns 0. What the library reads of the header ends at its first NUL.
pub socket_receiv_header-EndsFirst :
    (state : FourdResult) (h rest : Bytes)
    → EndsFirst [] h
    → length h < max_header_size
    → Yields
        (socket_receiv_header state)
        (h ++ rest)
        (record state { header = cstr h; header_size = length h }, 0)
        rest
unfolding socket_receiv_header
socket_receiv_header-EndsFirst state h rest e lt =
    Yields-bind (header_loop max_header_size []) (λ x. ret (with_header state x)) (h ++ rest)
      (header_loop-EndsFirst max_header_size [] h rest e lt)
      (Yields-ret (record state { header = cstr h; header_size = length h }, 0) rest)
