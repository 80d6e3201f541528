-- ===== src/Memory/Release.antt =====
-- The release of a result frees what its elements own, each block once.
use pdo_4d.Base.{ℕ, ◌≡◌, ◌≢◌, ◌∙◌, arith, true, none, some, Bytes, ok, inl, inr}
use pdo_4d.Connection.{Value, null_pointer, fixed, timestamp, float, string, blob, image}
use pdo_4d.FourdType.{FourdType}
use pdo_4d.Memory.{
  Ptr, null, Block, raw, struct, Heap, free, free_struct, write, free_element, load_data,
}
use pdo_4d.Memory.Places.{Distinct, owned_struct, owned, IsStruct, IsPlaced, removed}
use pdo_4d.Receive.Kinds.{kind_of, has_kind}

pub free-live :
    (p : Ptr) (h : Heap) (b : Block) → p ≢ null → h p ≡ some b → free p h ≡ ok (write h p none)
unfolding free
free-live p h b nz e = ground arith

free_struct-IsStruct :
    (h : Heap) (p d : Ptr)
    → IsStruct h p d
    → Distinct (owned_struct p d)
    → free_struct p h ≡ ok (removed (owned_struct p d) h)
unfolding free_struct free load_data write
free_struct-IsStruct h p d s dis = elim s.behind [
  | inl z ↦ ground (arith, s.holds, s.not_null)
  | inr r ↦ ground (arith, s.holds, s.not_null, r)
]

free_element-null : (t : FourdType) (p : Ptr) (h : Heap) → p ≡ null → free_element t p h ≡ ok h
unfolding free_element free free_struct
free_element-null t p h e = ground arith

module _ (t : FourdType) (p : Ptr) (h : Heap) where
  free_element-fixed :
      (bs : Bytes) → has_kind (kind_of t) (fixed bs) ≡ true → free_element t p h ≡ free p h
  unfolding free_element
  free_element-fixed bs k = ground arith

  free_element-timestamp :
      (y : Bytes) (m d : ℕ) (ms : Bytes)
      → has_kind (kind_of t) (timestamp y m d ms) ≡ true
      → free_element t p h ≡ free p h
  unfolding free_element
  free_element-timestamp y m d ms k = ground arith

  free_element-float :
      (e : Bytes) (s : ℕ) (n ds : Bytes)
      → has_kind (kind_of t) (float e s n ds) ≡ true
      → free_element t p h ≡ free p h
  unfolding free_element
  free_element-float e s n ds k = ground arith

  free_element-string :
      (n : ℕ) (cs : Bytes)
      → has_kind (kind_of t) (string n cs) ≡ true
      → free_element t p h ≡ free_struct p h
  unfolding free_element
  free_element-string n cs k = ground arith

  free_element-blob :
      (n : ℕ) (bs : Bytes)
      → has_kind (kind_of t) (blob n bs) ≡ true
      → free_element t p h ≡ free_struct p h
  unfolding free_element
  free_element-blob n bs k = ground arith

  free_element-image :
      (n : ℕ) (bs : Bytes)
      → has_kind (kind_of t) (image n bs) ≡ true
      → free_element t p h ≡ free_struct p h
  unfolding free_element
  free_element-image n bs k = ground arith

-- The switch frees what the value owns.
pub free_element-IsPlaced :
    (t : FourdType) (v : Value) (h : Heap) (p d : Ptr)
    → has_kind (kind_of t) v ≡ true
    → IsPlaced h v p d
    → Distinct (owned v p d)
    → free_element t p h ≡ ok (removed (owned v p d) h)
free_element-IsPlaced t null_pointer h p d k s dis = free_element-null t p h s
free_element-IsPlaced t (fixed bs) h p d k (nz, s) dis =
    free_element-fixed t p h bs k ∙ free-live p h raw nz s
free_element-IsPlaced t (timestamp y m w ms) h p d k (nz, s) dis =
    free_element-timestamp t p h y m w ms k ∙ free-live p h raw nz s
free_element-IsPlaced t (float e sg n ds) h p d k (nz, s) dis =
    free_element-float t p h e sg n ds k ∙ free-live p h (struct null) nz s
free_element-IsPlaced t (string n cs) h p d k s dis =
    free_element-string t p h n cs k ∙ free_struct-IsStruct h p d s dis
free_element-IsPlaced t (blob n bs) h p d k s dis =
    free_element-blob t p h n bs k ∙ free_struct-IsStruct h p d s dis
free_element-IsPlaced t (image n bs) h p d k s dis =
    free_element-image t p h n bs k ∙ free_struct-IsStruct h p d s dis
