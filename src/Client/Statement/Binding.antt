-- ===== src/Client/Statement/Binding.antt =====
-- The parameters of a statement, bound one after the other.
use pdo_4d.Base.{
  ℕ, zero, suc, ◌+◌, ◌-◌, ◌^◌, ◌≤◌, ◌<◌, ◌≡◌, refl, sym, ap, ◌∙◌, arith, true, Option, none, some,
  List, [], ◌∷◌, ◌++◌, map, length, length-append, length-set, length-take, length-replicate, take,
  set, replicate, ltb, leb, lt→ltb, le→leb, leb→le, leb→lt, Bool-cases, inl, inr, if◌then◌else◌,
  Outcome, ok, ◌>>=◌,
}
use pdo_4d.Client.Statement.{
  new_alloc, realloc, param_element, fourd_bind_param, bound_elements, params,
}
use pdo_4d.Connection.{Element, Value, FourdStatement}
use pdo_4d.FourdType.{FourdType}
use pdo_4d.Session.Fetch.{u32}

module _ {ℓ} {A : Type ℓ} where
  take-suc-set :
      (n : ℕ) (xs : List A) (v : A)
      → n < length xs
      → take (suc n) (set xs n v) ≡ take n xs ++ (v ∷ [])
  take-suc-set zero [] v h = absurd (omega arith)
  take-suc-set zero (x ∷ xs) v h = refl
  take-suc-set (suc n) [] v h = absurd (omega arith)
  take-suc-set (suc n) (x ∷ xs) v h = ap (◌∷◌ x) (take-suc-set n xs v (omega arith))

  take-prefix : (n : ℕ) (xs ys : List A) → n ≤ length xs → take n (xs ++ ys) ≡ take n xs
  take-prefix zero xs ys h = refl
  take-prefix (suc n) [] ys h = absurd (omega arith)
  take-prefix (suc n) (x ∷ xs) ys h = ap (◌∷◌ x) (take-prefix n xs ys (omega arith))

  take-take : (n m : ℕ) (xs : List A) → n ≤ m → take n (take m xs) ≡ take n xs
  take-take zero m xs h = refl
  take-take (suc n) zero xs h = absurd (omega arith)
  take-take (suc n) (suc m) [] h = refl
  take-take (suc n) (suc m) (x ∷ xs) h = ap (◌∷◌ x) (take-take n m xs (omega arith))

length-realloc : (n : ℕ) (xs : List (Option Element)) → length (realloc n xs) ≡ n
length-realloc n xs = omega (
  arith,
  length-take n (xs ++ replicate (n - length xs) none),
  length-append xs (replicate (n - length xs) none),
  length-replicate {A = Option Element} (n - length xs) none,
)

take-realloc :
    (k n : ℕ) (xs : List (Option Element))
    → k ≤ length xs
    → k ≤ n
    → take k (realloc n xs) ≡ take k xs
take-realloc k n xs h g =
    take-take k n (xs ++ replicate (n - length xs) none) g
    ∙ take-prefix k xs (replicate (n - length xs) none) h

-- The statement holds `es` as its parameters.
pub record Holds (state : FourdStatement) (es : List Element) : Type 0 where
  pub count : state.nb_element ≡ length es
  pub allocated : length state.elmt ≡ state.nb_alloc_element
  pub enough : state.nb_element ≤ state.nb_alloc_element
  pub values : take (length es) state.elmt ≡ map some es

-- The table of elements, after the growth.
abbrev grown : FourdStatement → ℕ → List (Option Element)
grown state n =
    if leb state.nb_alloc_element n then realloc (new_alloc state n) state.elmt else state.elmt

record HasGrown (state : FourdStatement) (es : List Element) : Type 0 where
  size : length (grown state (length es)) ≡ new_alloc state (length es)
  room : length es < length (grown state (length es))
  same : take (length es) (grown state (length es)) ≡ map some es

grown-HasGrown :
    (state : FourdStatement) (es : List Element)
    → Holds state es
    → length es + 5 < 2 ^ 32
    → HasGrown state es
grown-HasGrown state es h small = elim (Bool-cases (leb state.nb_alloc_element (length es))) [
  | inl b ↦
      let full = leb→le state.nb_alloc_element (length es) b in
      record {
        size = rw b (length-realloc (u32 (length es + 5)) state.elmt);
        room = rw b (omega (arith, length-realloc (u32 (length es + 5)) state.elmt));
        same = rw b (
            take-realloc (length es) (u32 (length es + 5)) state.elmt
              (omega (arith, h.count, h.allocated, h.enough)) (omega arith)
            ∙ h.values);
      }
  | inr b ↦
      let free = leb→lt state.nb_alloc_element (length es) b in
      record {
        size = rw b h.allocated;
        room = rw b (omega (arith, h.allocated));
        same = rw b h.values;
      }
]

map-append_one {ℓ κ} :
    {A : Type ℓ} {B : Type κ} (f : A → B) (xs : List A) (x : A)
    → map f (xs ++ (x ∷ [])) ≡ map f xs ++ (f x ∷ [])
map-append_one f [] x = refl
map-append_one f (y ∷ xs) x = ap (◌∷◌ (f y)) (map-append_one f xs x)

-- Binding the next parameter of a statement succeeds, whether the table has to grow or not, and adds its element
-- behind the others.
pub fourd_bind_param-Holds :
    (state : FourdStatement) (es : List Element) (t : FourdType) (v : Value) (e : Element)
    → Holds state es
    → length es + 5 < 2 ^ 32
    → param_element t v ≡ ok e
    → (new : FourdStatement) × (fourd_bind_param state (length es) t v ≡ ok new)
      × Holds new (es ++ (e ∷ []))
unfolding fourd_bind_param
fourd_bind_param-Holds state es t v e h small p =
    let g = grown-HasGrown state es h small in
    let next : leb state.nb_element (length es) ≡ true =
      le→leb state.nb_element (length es) (omega (arith, h.count)) in
    let room : ltb (length es) (length (grown state (length es))) ≡ true =
      lt→ltb (length es) (length (grown state (length es))) g.room in
    let one : length (es ++ (e ∷ [])) ≡ suc (length es) =
      omega (arith, length-append es (e ∷ [])) in
    (
      record state {
        nb_element = u32 (length es + 1);
        nb_alloc_element = new_alloc state (length es);
        elmt = set (grown state (length es)) (length es) (some e);
      },
      rw (room, next, p, fourd_bind_param) refl,
      record {
        count = omega (arith, one);
        allocated = length-set (grown state (length es)) (length es) (some e) ∙ g.size;
        enough = omega (arith, g.size, g.room);
        values = rw one (
            take-suc-set (length es) (grown state (length es)) (some e) g.room
            ∙ ap (λ x. x ++ (some e ∷ [])) g.same
            ∙ sym (map-append_one some es e));
      },
    )

bound_elements-some : (es : List Element) → bound_elements (map some es) ≡ ok es
unfolding bound_elements
bound_elements-some [] = refl
bound_elements-some (e ∷ es) = rw (bound_elements-some es, bound_elements) refl

pub params-Holds :
    (state : FourdStatement) (es : List Element) → Holds state es → params state ≡ ok es
unfolding params
params-Holds state es h =
    let fits : leb state.nb_element (length state.elmt) ≡ true =
      le→leb state.nb_element (length state.elmt) (omega (arith, h.allocated, h.enough)) in
    rw (fits, h.count, h.values, params) (bound_elements-some es)

-- The values bound one after the other, from the parameter with the number `n` on.
unfoldable pub bind_all : FourdStatement → ℕ → List (FourdType × Value) → Outcome FourdStatement
bind_all state n [] = ok state
bind_all state n (p ∷ ps) = fourd_bind_param state n p.0 p.1 >>= λ s. bind_all s (n + 1) ps

unfoldable pub param_elements : List (FourdType × Value) → Outcome (List Element)
param_elements [] = ok []
param_elements (p ∷ ps) = param_element p.0 p.1 >>= λ e. param_elements ps >>= λ es. ok (e ∷ es)
