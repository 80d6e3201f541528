-- ===== src/Memory/Received/Written.antt =====
-- What the allocations for one value do.
use pdo_4d.Base.{
  ℕ, ◌+◌, ◌<◌, ◌≤◌, ◌≡◌, inl, inr, refl, subst, arith, Bool, true, List, [], ◌∷◌, ◌++◌, false,
  if◌then◌else◌,
}
use pdo_4d.Connection.{Value, null_pointer, fixed, timestamp, float, string, blob, image}
use pdo_4d.Memory.{Ptr, null, Block, raw, struct, Heap, write}
use pdo_4d.Memory.Places.{has, Distinct, owned, owned_struct, IsStruct, IsPlaced, has-append}
use pdo_4d.Memory.Received.{Arena, Spot, calloc, flat, with_data, has_no_data, allocate}

-- Some blocks between the two arenas were written.
pub record Wrote (a : Arena) (ps : List Ptr) (b : Arena) : Type 0 where
  pub grows : a.next ≤ b.next
  pub lower : (p : Ptr) → has p ps ≡ true → a.next ≤ p
  pub upper : (p : Ptr) → has p ps ≡ true → p < b.next
  pub same : (p : Ptr) → has p ps ≡ false → b.heap p ≡ a.heap p
  pub distinct : Distinct ps

flat-Wrote : (b : Block) (a : Arena) → Wrote a (a.next ∷ []) (calloc b a)
unfolding write
flat-Wrote b a = record {
  grows = omega arith;
  lower = λ p e. ground arith;
  upper = λ p e. ground arith;
  same = λ p e. ground arith;
  distinct = (refl, tt);
}

with_data-Wrote : (a : Arena) → Wrote a ((a.next + 1) ∷ (a.next ∷ [])) (with_data a).arena
unfolding write
with_data-Wrote a = record {
  grows = omega arith;
  lower = λ p e. ground arith;
  upper = λ p e. ground arith;
  same = λ p e. ground arith;
  distinct = (ground arith, (refl, tt));
}

with_data-IsStruct :
    (a : Arena) → 0 < a.next → IsStruct (with_data a).arena.heap a.next (a.next + 1)
unfolding write
with_data-IsStruct a pos = record {
  not_null = omega arith;
  holds = ground arith;
  behind = inr (ground arith);
}

flat-IsStruct : (a : Arena) → 0 < a.next → IsStruct (calloc (struct null) a).heap a.next null
unfolding write
flat-IsStruct a pos = record { not_null = omega arith; holds = ground arith; behind = inl refl }

IsStruct-same :
    (h g : Heap) (p d : Ptr)
    → ((q : Ptr) → has q (owned_struct p d) ≡ true → g q ≡ h q)
    → IsStruct h p d
    → IsStruct g p d
IsStruct-same h g p d same s = record {
  not_null = s.not_null;
  holds = ground (arith, same p, s.holds);
  behind = elim s.behind [ inl z ↦ inl z | inr r ↦ ground (arith, same d, r) ];
}

pub IsPlaced-same :
    (v : Value) (h g : Heap) (p d : Ptr)
    → ((q : Ptr) → has q (owned v p d) ≡ true → g q ≡ h q)
    → IsPlaced h v p d
    → IsPlaced g v p d
IsPlaced-same null_pointer h g p d same s = s
IsPlaced-same (fixed bs) h g p d same (nz, s) = (nz, ground (arith, same p))
IsPlaced-same (timestamp y m w ms) h g p d same (nz, s) = (nz, ground (arith, same p))
IsPlaced-same (float e sg n ds) h g p d same (nz, s) = (nz, ground (arith, same p))
IsPlaced-same (string n cs) h g p d same s = IsStruct-same h g p d same s
IsPlaced-same (blob n bs) h g p d same s = IsStruct-same h g p d same s
IsPlaced-same (image n bs) h g p d same s = IsStruct-same h g p d same s

-- Two allocations one after the other.
Distinct-both :
    (ps qs : List Ptr) (n : ℕ)
    → ((p : Ptr) → has p ps ≡ true → p < n)
    → ((p : Ptr) → has p qs ≡ true → n ≤ p)
    → Distinct ps
    → Distinct qs
    → Distinct (ps ++ qs)
Distinct-both [] qs n below above dp dq = dq
Distinct-both (p ∷ ps) qs n below above (out, dp) dq = (
  ground (arith, has-append p ps qs, below p, above p),
  Distinct-both ps qs n (λ q e. below q (ground arith)) above dp dq,
)

pub Wrote-append :
    (a b c : Arena) (ps qs : List Ptr) → Wrote a ps b → Wrote b qs c → Wrote a (ps ++ qs) c
Wrote-append a b c ps qs u v = record {
  grows = omega (arith, u.grows, v.grows);
  lower = λ p e. ground (arith, has-append p ps qs, u.lower p, v.lower p, u.grows);
  upper = λ p e. ground (arith, has-append p ps qs, u.upper p, v.upper p, v.grows);
  same = λ p e. ground (arith, has-append p ps qs, u.same p, v.same p);
  distinct = Distinct-both ps qs b.next u.upper v.lower u.distinct v.distinct;
}

owned_struct-with_data :
    (a : Arena) → ((a.next + 1) ∷ (a.next ∷ [])) ≡ owned_struct a.next (a.next + 1)
owned_struct-with_data a = ground arith

string-Wrote : (a : Arena) → Wrote a (owned_struct a.next (a.next + 1)) (with_data a).arena
string-Wrote a =
    subst (λ ps. Wrote a ps (with_data a).arena) (owned_struct-with_data a) (with_data-Wrote a)

-- Where a structure with data or one without lies.
abbrev pub spot_of : Bool → Arena → Spot
spot_of b a = if b then flat (struct null) a else with_data a

spot_of-Wrote :
    (b : Bool) (a : Arena)
    → Wrote a (owned_struct (spot_of b a).address (spot_of b a).contents) (spot_of b a).arena
spot_of-Wrote true a = flat-Wrote (struct null) a
spot_of-Wrote false a = string-Wrote a

-- The allocations for one value write the blocks that it owns.
pub allocate-Wrote :
    (v : Value) (a : Arena)
    → Wrote a (owned v (allocate v a).address (allocate v a).contents) (allocate v a).arena
unfolding allocate
allocate-Wrote null_pointer a = record {
  grows = omega arith;
  lower = λ p e. ground arith;
  upper = λ p e. ground arith;
  same = λ p e. refl;
  distinct = tt;
}
allocate-Wrote (fixed bs) a = flat-Wrote raw a
allocate-Wrote (timestamp y m d ms) a = flat-Wrote raw a
allocate-Wrote (float e s n ds) a = flat-Wrote (struct null) a
allocate-Wrote (string n cs) a = string-Wrote a
allocate-Wrote (blob n bs) a = spot_of-Wrote (has_no_data n) a
allocate-Wrote (image n bs) a = spot_of-Wrote (has_no_data n) a

spot_of-IsStruct :
    (b : Bool) (a : Arena)
    → 0 < a.next
    → IsStruct (spot_of b a).arena.heap (spot_of b a).address (spot_of b a).contents
spot_of-IsStruct true a pos = flat-IsStruct a pos
spot_of-IsStruct false a pos = with_data-IsStruct a pos

pub allocate-IsPlaced :
    (v : Value) (a : Arena)
    → 0 < a.next
    → IsPlaced (allocate v a).arena.heap v (allocate v a).address (allocate v a).contents
unfolding allocate write
allocate-IsPlaced null_pointer a pos = refl
allocate-IsPlaced (fixed bs) a pos = (omega arith, ground arith)
allocate-IsPlaced (timestamp y m d ms) a pos = (omega arith, ground arith)
allocate-IsPlaced (float e s n ds) a pos = (omega arith, ground arith)
allocate-IsPlaced (string n cs) a pos = with_data-IsStruct a pos
allocate-IsPlaced (blob n bs) a pos = spot_of-IsStruct (has_no_data n) a pos
allocate-IsPlaced (image n bs) a pos = spot_of-IsStruct (has_no_data n) a pos
