-- ===== src/Net/Stream.antt =====
-- `frecv` reads the byte stream, however the network cuts it into segments.
use pdo_4d.Base.{
  ℕ, zero, suc, ◌-◌, ◌≤◌, ◌<◌, ◌≡◌, refl, sym, ap, ◌∙◌, inl, inr, arith, true, false, Option, none,
  some, List, [], ◌∷◌, ◌++◌, leb, Bytes, length, length-append, length-take, take, drop, Bool-cases,
}
use pdo_4d.Net.{Event, segment, failure, leave, Read, prepend, frecv_loop, frecv}

-- The bytes that arrive before the first failure or the end.
abbrev pub stream : List Event → Bytes
stream [] = []
stream (failure ∷ es) = []
stream (segment bs ∷ es) = bs ++ stream es

-- Every segment holds at least one byte.
abbrev pub IsLive : List Event → Type 0
IsLive [] = Unit
IsLive (failure ∷ es) = IsLive es
IsLive (segment bs ∷ es) = (0 < length bs) × IsLive es

-- The peer closes without a failure.
abbrev pub IsClosed : List Event → Type 0
IsClosed [] = Unit
IsClosed (failure ∷ es) = ⊥
IsClosed (segment bs ∷ es) = IsClosed es

take-append_le : (n : ℕ) (xs ys : Bytes) → n ≤ length xs → take n (xs ++ ys) ≡ take n xs
take-append_le zero xs ys h = refl
take-append_le (suc n) [] ys h = absurd (omega arith)
take-append_le (suc n) (x ∷ xs) ys h = ap (◌∷◌ x) (take-append_le n xs ys (omega arith))

drop-append_le : (n : ℕ) (xs ys : Bytes) → n ≤ length xs → drop n (xs ++ ys) ≡ drop n xs ++ ys
drop-append_le zero xs ys h = refl
drop-append_le (suc n) [] ys h = absurd (omega arith)
drop-append_le (suc n) (x ∷ xs) ys h = drop-append_le n xs ys (omega arith)

take-append_ge :
    (n : ℕ) (xs ys : Bytes) → length xs ≤ n → take n (xs ++ ys) ≡ xs ++ take (n - length xs) ys
take-append_ge n [] ys h = ap (λ k. take k ys) (omega arith)
take-append_ge zero (x ∷ xs) ys h = absurd (omega arith)
take-append_ge (suc n) (x ∷ xs) ys h =
    ap (◌∷◌ x) (take-append_ge n xs ys (omega arith) ∙ ap (λ k. xs ++ take k ys) (omega arith))

drop-append_ge :
    (n : ℕ) (xs ys : Bytes) → length xs ≤ n → drop n (xs ++ ys) ≡ drop (n - length xs) ys
drop-append_ge n [] ys h = ap (λ k. drop k ys) (omega arith)
drop-append_ge zero (x ∷ xs) ys h = absurd (omega arith)
drop-append_ge (suc n) (x ∷ xs) ys h =
    drop-append_ge n xs ys (omega arith) ∙ ap (λ k. drop k ys) (omega arith)

take_whole : (n : ℕ) (xs : Bytes) → length xs ≤ n → take n xs ≡ xs
take_whole zero [] h = refl
take_whole zero (x ∷ xs) h = absurd (omega arith)
take_whole (suc n) [] h = refl
take_whole (suc n) (x ∷ xs) h = ap (◌∷◌ x) (take_whole n xs (omega arith))

drop_whole : (n : ℕ) (xs : Bytes) → length xs ≤ n → drop n xs ≡ []
drop_whole zero [] h = refl
drop_whole zero (x ∷ xs) h = absurd (omega arith)
drop_whole (suc n) [] h = refl
drop_whole (suc n) (x ∷ xs) h = drop_whole n xs (omega arith)

stream-leave : (bs : Bytes) (es : List Event) → stream (leave bs es) ≡ bs ++ stream es
stream-leave [] es = refl
stream-leave (c ∷ cs) es = refl

IsLive-leave : (bs : Bytes) (es : List Event) → IsLive es → IsLive (leave bs es)
IsLive-leave [] es h = h
IsLive-leave (c ∷ cs) es h = (omega arith, h)

-- `r` is a complete read of the first `n` bytes of the stream of `es`.
pub record Reads (n : ℕ) (es : List Event) (r : Option Read) : Type 0 where
  pub rest : List Event
  pub returns : r ≡ some (record { complete = true; buf = take n (stream es); rest = rest })
  pub remains : stream rest ≡ drop n (stream es)
  pub live : IsLive rest

-- A segment that holds the whole of what is asked for.
Reads-within :
    (fuel n : ℕ) (bs : Bytes) (es : List Event)
    → IsLive es
    → n ≤ length bs
    → Reads n (segment bs ∷ es) (frecv_loop (suc fuel) n (segment bs ∷ es))
unfolding frecv_loop
Reads-within fuel n bs es live h =
    let full : leb n (length (take n bs)) ≡ true = ground (arith, length-take n bs) in
    record {
      rest = leave (drop n bs) es;
      returns = rw (full, take-append_le n bs (stream es) h, frecv_loop);
      remains = stream-leave (drop n bs) es ∙ sym (drop-append_le n bs (stream es) h);
      live = IsLive-leave (drop n bs) es live;
    }

-- At the end of the stream nothing arrives any more.
frecv_loop_end :
    (fuel n : ℕ) → 0 < n → frecv_loop (suc fuel) n [] ≡ prepend [] (frecv_loop fuel (n - 0) [])
unfolding frecv_loop
frecv_loop_end fuel n h = let waits : leb n 0 ≡ false = ground arith in rw (waits, frecv_loop)

-- A segment that is used up.
frecv_loop_short :
    (fuel n : ℕ) (bs : Bytes) (es : List Event)
    → length bs < n
    → frecv_loop (suc fuel) n (segment bs ∷ es) ≡ prepend bs (frecv_loop fuel (n - length bs) es)
unfolding frecv_loop
frecv_loop_short fuel n bs es h =
    let short : leb n (length bs) ≡ false = ground arith in
    let all : take n bs ≡ bs = take_whole n bs (omega arith) in
    rw (all, short, all, drop_whole n bs (omega arith), frecv_loop)

Reads-beyond :
    (fuel n : ℕ) (bs : Bytes) (es : List Event)
    → length bs < n
    → Reads (n - length bs) es (frecv_loop fuel (n - length bs) es)
    → Reads n (segment bs ∷ es) (frecv_loop (suc fuel) n (segment bs ∷ es))
Reads-beyond fuel n bs es h r = record {
  rest = r.rest;
  returns =
      rw (frecv_loop_short fuel n bs es h, r.returns)
        (rw (take-append_ge n bs (stream es) (omega arith)));
  remains = r.remains ∙ sym (drop-append_ge n bs (stream es) (omega arith));
  live = r.live;
}

frecv_loop-Reads :
    (es : List Event) (fuel n : ℕ)
    → IsLive es
    → 0 < n
    → n ≤ length (stream es)
    → length es < fuel
    → Reads n es (frecv_loop fuel n es)
frecv_loop-Reads [] fuel n live pos h f = absurd (omega arith)
frecv_loop-Reads (failure ∷ es) fuel n live pos h f = absurd (omega arith)
frecv_loop-Reads (segment bs ∷ es) zero n live pos h f = absurd (omega arith)
frecv_loop-Reads (segment bs ∷ es) (suc fuel) n live pos h f =
    elim (Bool-cases (leb n (length bs))) [
      | inl full ↦ Reads-within fuel n bs es live.1 (ground arith)
      | inr short ↦ Reads-beyond fuel n bs es (ground arith) (
          frecv_loop-Reads es fuel (n - length bs) live.1 (ground arith)
            (omega (arith, length-append {0} bs (stream es))) (omega arith))
    ]

-- When the stream holds the `n` bytes that are asked for, `frecv` returns with exactly the first `n` of them, and leaves the rest
-- of the stream unread, however the network has cut the stream into segments.
pub frecv-Reads :
    (n : ℕ) (es : List Event) → IsLive es → 0 < n → n ≤ length (stream es) → Reads n es (frecv n es)
unfolding frecv
frecv-Reads n es live pos h = frecv_loop-Reads es (suc (length es)) n live pos h (omega arith)

-- When the peer closes before all bytes that are asked for have arrived, the loop of `frecv` never ends, whatever number of rounds it is given.
pub frecv_loop_hangs :
    (fuel n : ℕ) (es : List Event)
    → IsClosed es
    → length (stream es) < n
    → frecv_loop fuel n es ≡ none
frecv_loop_hangs zero n es c h = unfold frecv_loop in refl
frecv_loop_hangs (suc fuel) n [] c h =
    rw (frecv_loop_end fuel n h)
      (ap (prepend []) (frecv_loop_hangs fuel (n - 0) [] c (omega arith)))
frecv_loop_hangs (suc fuel) n (failure ∷ es) c h = absurd c
frecv_loop_hangs (suc fuel) n (segment bs ∷ es) c h =
    let total = length-append bs (stream es) in
    rw (frecv_loop_short fuel n bs es (omega arith))
      (ap (prepend bs) (frecv_loop_hangs fuel (n - length bs) es c (omega arith)))
