-- ===== src/MultiQuery/Laws.antt =====
-- The scan finds exactly the requests with a second statement.
use pdo_4d.Base.{
  ℕ, suc, ◌+◌, Bool, true, false, not, ◌&&◌, some, [], ◌∷◌, ◌≡◌, ◌↔◌, inl, inr, refl, arith, ltb,
  leb, lt→leb, take, take_all, ◌%◌, ◌^◌, ◌<◌, ◌==◌, if◌then◌else◌, Bytes, length, Bool-cases,
}
use pdo_4d.MultiQuery.{Scan, stop, go, switch, scan, is_multi_query}
use pdo_4d.MultiQuery.Context.{
  Context, plain, in_name, in_text, after, IsVisible, Continues, HasSecond,
}

-- The flags that stand for a context.
abbrev flags : Context → Bool → Scan
flags plain f = record { in_col = false; in_str = false; fin_first = f }
flags in_name f = record { in_col = true; in_str = false; fin_first = f }
flags in_text f = record { in_col = false; in_str = true; fin_first = f }

abbrev is_visible : Context → ℕ → Bool
is_visible plain c =
    not (c == b'[') && not (c == b']') && not (c == b'\'') && not (c == b';') && not (c == b' ')
is_visible _ c = false

abbrev ends : Context → ℕ → Bool
ends plain c = c == b';'
ends _ c = false

switch_first :
    (i prev : ℕ) (k : Context) (c : ℕ)
    → switch i prev (flags k false) c ≡ go (flags (after i prev k c) (ends k c))
unfolding switch
switch_first i prev plain c = ground arith
switch_first i prev in_name c = ground arith
switch_first i prev in_text c = ground arith

switch_second :
    (i prev : ℕ) (k : Context) (c : ℕ)
    → switch i prev (flags k true) c
      ≡ (if is_visible k c then stop else go (flags (after i prev k c) true))
unfolding switch
switch_second i prev plain c = ground arith
switch_second i prev in_name c = ground arith
switch_second i prev in_text c = ground arith

is_visible_sound : (k : Context) (c : ℕ) → is_visible k c ≡ true → (k ≡ plain) × IsVisible c
is_visible_sound plain c h = (
  refl,
  record {
    not_open = ground arith;
    not_close = ground arith;
    not_quote = ground arith;
    not_semicolon = ground arith;
    not_space = ground arith;
  },
)
is_visible_sound in_name c h = absurd (cc)
is_visible_sound in_text c h = absurd (cc)

is_visible_complete : (k : Context) (c : ℕ) → k ≡ plain → IsVisible c → is_visible k c ≡ true
is_visible_complete plain c e v =
    ground (arith, v.not_open, v.not_close, v.not_quote, v.not_semicolon, v.not_space)
is_visible_complete in_name c e v = absurd (cc)
is_visible_complete in_text c e v = absurd (cc)

-- One round of the scan, before the first statement has ended and behind its end.
scan_first :
    (i prev : ℕ) (k : Context) (c : ℕ) (rest : Bytes)
    → scan i prev (flags k false) (c ∷ rest)
      ≡ scan (i + 1) c (flags (after i prev k c) (ends k c)) rest
unfolding scan
scan_first i prev k c rest = rw (switch_first i prev k c, scan)

scan_second :
    (i prev : ℕ) (k : Context) (c : ℕ) (rest : Bytes)
    → scan i prev (flags k true) (c ∷ rest)
      ≡ (if is_visible k c then true else scan (i + 1) c (flags (after i prev k c) true) rest)
unfolding scan
scan_second i prev k c rest = elim (Bool-cases (is_visible k c)) [
  | inl v ↦ rw (switch_second i prev k c, v, scan)
  | inr v ↦ rw (switch_second i prev k c, v, scan)
]

scan-Continues :
    (s : Bytes) (i prev : ℕ) (k : Context)
    → scan i prev (flags k true) s ≡ true
    → Continues i prev k s
scan-Continues [] i prev k h = unfold scan in absurd (cc)
scan-Continues (c ∷ rest) i prev k h = elim (Bool-cases (is_visible k c)) [
  | inl v ↦ let (p, q) = is_visible_sound k c v in Continues.here p q
  | inr v ↦
      Continues.later
        (scan-Continues rest (i + 1) c (after i prev k c) (rw (scan_second i prev k c _, v) at h))
]

Continues-scan :
    {s : Bytes} {i prev : ℕ} {k : Context}
    → Continues i prev k s
    → scan i prev (flags k true) s ≡ true
Continues-scan (Continues.here {i} {prev} {k} {c} e v) =
    rw (scan_second i prev k c _, is_visible_complete k c e v)
Continues-scan (Continues.later {i} {prev} {k} {c} t) = elim (Bool-cases (is_visible k c)) [
  | inl v ↦ rw (scan_second i prev k c _, v)
  | inr v ↦ rw (scan_second i prev k c _, v) (Continues-scan t)
]

ends_sound :
    (i prev : ℕ) (k : Context) (c : ℕ)
    → ends k c ≡ true
    → (k ≡ plain) × (c ≡ b';') × (after i prev k c ≡ plain)
ends_sound i prev plain c h = (refl, ground arith, ground arith)
ends_sound i prev in_name c h = absurd (cc)
ends_sound i prev in_text c h = absurd (cc)

ends_complete :
    (i prev : ℕ) (k : Context) (c : ℕ)
    → k ≡ plain
    → c ≡ b';'
    → (ends k c ≡ true) × (after i prev k c ≡ plain)
ends_complete i prev plain c p q = (ground arith, ground arith)
ends_complete i prev in_name c p q = absurd (cc)
ends_complete i prev in_text c p q = absurd (cc)

scan-HasSecond :
    (s : Bytes) (i prev : ℕ) (k : Context)
    → scan i prev (flags k false) s ≡ true
    → HasSecond i prev k s
scan-HasSecond [] i prev k h = unfold scan in absurd (cc)
scan-HasSecond (c ∷ rest) i prev k h = elim (Bool-cases (ends k c)) [
  | inl v ↦
      let (p, q, r) = ends_sound i prev k c v in
      HasSecond.here p q
        (scan-Continues rest (i + 1) c plain (rw (scan_first i prev k c _, v, r) at h))
  | inr v ↦
      HasSecond.later
        (scan-HasSecond rest (i + 1) c (after i prev k c) (rw (scan_first i prev k c _, v) at h))
]

-- Once the first statement has ended, the scan finds all that it found before.
scan_grows :
    (s : Bytes) (i prev : ℕ) (k : Context)
    → scan i prev (flags k false) s ≡ true
    → scan i prev (flags k true) s ≡ true
scan_grows [] i prev k h = unfold scan in absurd (cc)
scan_grows (c ∷ rest) i prev k h = elim (Bool-cases (is_visible k c)) [
  | inl v ↦ rw (scan_second i prev k c _, v)
  | inr v ↦
      rw (scan_second i prev k c _, v)
        (elim (Bool-cases (ends k c)) [
          | inl e ↦ rw (scan_first i prev k c _, e) at h
          | inr e ↦
              scan_grows rest (i + 1) c (after i prev k c) (rw (scan_first i prev k c _, e) at h)
        ])
]

HasSecond-scan :
    {s : Bytes} {i prev : ℕ} {k : Context}
    → HasSecond i prev k s
    → scan i prev (flags k false) s ≡ true
HasSecond-scan (HasSecond.here {i} {prev} {k} {c} p q t) =
    let (e, r) = ends_complete i prev k c p q in
    rw (scan_first i prev k c _, e, r) (Continues-scan t)
HasSecond-scan (HasSecond.later {i} {prev} {k} {c} t) = elim (Bool-cases (ends k c)) [
  | inl e ↦ rw (scan_first i prev k c _, e) (scan_grows _ _ _ _ (HasSecond-scan t))
  | inr e ↦ rw (scan_first i prev k c _, e) (HasSecond-scan t)
]

-- A request of fewer than 2 ^ 31 bytes is refused as a multi-query exactly when some `;` outside bracketed names and string literals
-- is followed, again outside both, by a character other than a space, a bracket, a quote or a `;`.
pub is_multi_query-HasSecond :
    (request : Bytes)
    → length request < 2 ^ 31
    → (is_multi_query (some request) ≡ true) ↔ HasSecond 0 0 plain request
unfolding is_multi_query
is_multi_query-HasSecond [] small = (λ h. absurd (cc), λ h. absurd (none_left h))
  where
    none_left : HasSecond 0 0 plain [] → ⊥
    none_left h = elim h [ ]
is_multi_query-HasSecond (c ∷ cs) small =
    let len : suc (length cs) % 2 ^ 32 ≡ suc (length cs) = omega arith in
    let nonempty : ltb (suc (length cs)) 1 ≡ false = ground arith in
    let positive : leb (2 ^ 31) (suc (length cs)) ≡ false =
      lt→leb (suc (length cs)) (2 ^ 31) small in
    let whole : take (suc (length cs)) (c ∷ cs) ≡ c ∷ cs =
      take_all (suc (length cs)) (c ∷ cs) (omega arith) in
    (
      λ h. scan-HasSecond (c ∷ cs) 0 0 plain (rw (len, nonempty, positive, whole) at h),
      λ h. rw (len, nonempty, positive, whole) (HasSecond-scan h),
    )
