-- ===== src/Memory/Places.antt =====
-- How the elements of a result lie in the heap.
use pdo_4d.Base.{
  ◌≡◌, ◌≢◌, ◌⊎◌, inl, inr, refl, ap, ◌∙◌, arith, Bool, true, false, ◌||◌, Option, none, some, List,
  [], ◌∷◌, ◌++◌, ◌==◌, if◌then◌else◌,
}
use pdo_4d.Connection.{Element, Value, null_pointer, fixed, timestamp, float, string, blob, image}
use pdo_4d.Memory.{Ptr, null, Slot, Block, raw, struct, Heap, write}
use pdo_4d.Receive.Kinds.{kind_of, has_kind}

abbrev pub has : Ptr → List Ptr → Bool
has a [] = false
has a (p ∷ ps) = (a == p) || has a ps

abbrev pub Distinct : List Ptr → Type 0
Distinct [] = Unit
Distinct (p ∷ ps) = (has p ps ≡ false) × Distinct ps

-- An element, its `pValue`, and the `data` field behind this pointer.
pub record Place : Type 0 where
  pub element : Element
  pub address : Ptr
  pub contents : Ptr

abbrev pub slot_of : Place → Slot
slot_of x = record { type = x.element.type; p_value = x.address }

-- The blocks of a structure at `p`.
abbrev pub owned_struct : Ptr → Ptr → List Ptr
owned_struct p d = if d == null then p ∷ [] else d ∷ p ∷ []

abbrev pub owned : Value → Ptr → Ptr → List Ptr
owned null_pointer p d = []
owned (fixed bs) p d = p ∷ []
owned (timestamp y m w ms) p d = p ∷ []
owned (float e s n ds) p d = p ∷ []
owned (string n cs) p d = owned_struct p d
owned (blob n bs) p d = owned_struct p d
owned (image n bs) p d = owned_struct p d

abbrev pub owns : Place → List Ptr
owns x = owned x.element.value x.address x.contents

abbrev pub all_owned : List Place → List Ptr
all_owned [] = []
all_owned (x ∷ xs) = owns x ++ all_owned xs

pub record IsStruct (h : Heap) (p d : Ptr) : Type 0 where
  pub not_null : p ≢ null
  pub holds : h p ≡ some (struct d)
  pub behind : (d ≡ null) ⊎ (h d ≡ some raw)

-- A value in the heap. The digits of a number of variable length are never read: their `data` is null.
abbrev pub IsPlaced : Heap → Value → Ptr → Ptr → Type 0
IsPlaced h null_pointer p d = p ≡ null
IsPlaced h (fixed bs) p d = (p ≢ null) × (h p ≡ some raw)
IsPlaced h (timestamp y m w ms) p d = (p ≢ null) × (h p ≡ some raw)
IsPlaced h (float e s n ds) p d = (p ≢ null) × (h p ≡ some (struct null))
IsPlaced h (string n cs) p d = IsStruct h p d
IsPlaced h (blob n bs) p d = IsStruct h p d
IsPlaced h (image n bs) p d = IsStruct h p d

-- An element of the kind that its type says, in the heap.
pub record IsHeld (h : Heap) (x : Place) : Type 0 where
  pub kind : has_kind (kind_of x.element.type) x.element.value ≡ true
  pub placed : IsPlaced h x.element.value x.address x.contents

abbrev pub AreHeld : Heap → List Place → Type 0
AreHeld h [] = Unit
AreHeld h (x ∷ xs) = IsHeld h x × AreHeld h xs

-- The heap without some blocks.
abbrev pub removed : List Ptr → Heap → Heap
removed [] h = h
removed (p ∷ ps) h = removed ps (write h p none)

pub write-other : (h : Heap) (p a : Ptr) (b : Option Block) → (a == p) ≡ false → write h p b a ≡ h a
unfolding write
write-other h p a b e = rw (e, write) refl

pub removed-at :
    (ps : List Ptr) (h : Heap) (a : Ptr) → removed ps h a ≡ (if has a ps then none else h a)
unfolding write
removed-at [] h a = refl
removed-at (p ∷ ps) h a = ground (arith, removed-at ps (write h p none) a)

IsStruct-write :
    (h : Heap) (q : Ptr) (b : Option Block) (p d : Ptr)
    → has q (owned_struct p d) ≡ false
    → IsStruct h p d
    → IsStruct (write h q b) p d
unfolding write
IsStruct-write h q b p d e s = record {
  not_null = s.not_null;
  holds = ground (arith, s.holds);
  behind = elim s.behind [ inl z ↦ inl z | inr r ↦ ground (arith, r) ];
}

IsPlaced-write :
    (h : Heap) (q : Ptr) (b : Option Block) (v : Value) (p d : Ptr)
    → has q (owned v p d) ≡ false
    → IsPlaced h v p d
    → IsPlaced (write h q b) v p d
unfolding write
IsPlaced-write h q b null_pointer p d e s = s
IsPlaced-write h q b (fixed bs) p d e s = ground arith
IsPlaced-write h q b (timestamp y m w ms) p d e s = ground arith
IsPlaced-write h q b (float ex sg n ds) p d e s = ground arith
IsPlaced-write h q b (string n cs) p d e s = IsStruct-write h q b p d e s
IsPlaced-write h q b (blob n bs) p d e s = IsStruct-write h q b p d e s
IsPlaced-write h q b (image n bs) p d e s = IsStruct-write h q b p d e s

IsHeld-write :
    (h : Heap) (q : Ptr) (b : Option Block) (x : Place)
    → has q (owns x) ≡ false
    → IsHeld h x
    → IsHeld (write h q b) x
IsHeld-write h q b x e held = record {
  kind = held.kind;
  placed = IsPlaced-write h q b x.element.value x.address x.contents e held.placed;
}

pub has-append : (a : Ptr) (ps qs : List Ptr) → has a (ps ++ qs) ≡ (has a ps || has a qs)
has-append a [] qs = refl
has-append a (p ∷ ps) qs = ground (arith, has-append a ps qs)

pub not_in_append :
    (a : Ptr) (ps qs : List Ptr)
    → has a (ps ++ qs) ≡ false
    → (has a ps ≡ false) × (has a qs ≡ false)
not_in_append a ps qs e = ground (arith, has-append a ps qs)

pub AreHeld-write :
    (h : Heap) (q : Ptr) (b : Option Block) (xs : List Place)
    → has q (all_owned xs) ≡ false
    → AreHeld h xs
    → AreHeld (write h q b) xs
AreHeld-write h q b [] e held = tt
AreHeld-write h q b (x ∷ xs) e (first, rest) =
    let (out, later) = not_in_append q (owns x) (all_owned xs) e in
    (IsHeld-write h q b x out first, AreHeld-write h q b xs later rest)

-- What lies elsewhere stays when blocks are removed.
pub AreHeld-removed :
    (ps : List Ptr) (h : Heap) (xs : List Place)
    → Distinct (ps ++ all_owned xs)
    → AreHeld h xs
    → AreHeld (removed ps h) xs
AreHeld-removed [] h xs d held = held
AreHeld-removed (p ∷ ps) h xs (out, d) held =
    AreHeld-removed ps (write h p none) xs d
      (AreHeld-write h p none xs (not_in_append p ps (all_owned xs) out).1 held)

pub Distinct-append : (ps qs : List Ptr) → Distinct (ps ++ qs) → Distinct ps × Distinct qs
Distinct-append [] qs d = (tt, d)
Distinct-append (p ∷ ps) qs (out, d) =
    let (left, right) = Distinct-append ps qs d in ((((not_in_append p ps qs out).0, left)), right)

pub removed-append :
    (ps qs : List Ptr) (h : Heap) → removed (ps ++ qs) h ≡ removed qs (removed ps h)
removed-append [] qs h = refl
removed-append (p ∷ ps) qs h = removed-append ps qs (write h p none)

-- A block that is not removed.
pub removed-other : (ps : List Ptr) (h : Heap) (a : Ptr) → has a ps ≡ false → removed ps h a ≡ h a
removed-other ps h a e = removed-at ps h a ∙ ap (λ b. if b then none else h a) e
