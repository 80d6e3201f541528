-- ===== src/Memory/Received/Freed.antt =====
-- lib4d_sql/communication.c and lib4d_sql/fourd_interne.c: the memory of received elements, from its allocation to its release.
use pdo_4d.Base.{
  suc, ◌+◌, ◌*◌, ◌^◌, ◌<◌, ◌≤◌, ◌≡◌, refl, sym, ap, ◌∙◌, arith, false, Option, none, some, List, [],
  ◌∷◌, ◌++◌, map, length, append-nil, ◌==◌, if◌then◌else◌, ok,
}
use pdo_4d.Connection.{Element}
use pdo_4d.Memory.{
  Ptr, null, Block, raw, Table, elements, Heap, write, free_elements, free_data_result,
}
use pdo_4d.Memory.Places.{
  has, Place, slot_of, owns, all_owned, IsHeld, AreHeld, AreHeld-write, removed, removed-at,
}
use pdo_4d.Memory.Received.{
  Arena, calloc, allocate, place_at, allocate_all, allocate_table, allocate_data,
}
use pdo_4d.Memory.Received.Written.{
  Wrote, IsPlaced-same, Wrote-append, allocate-Wrote, allocate-IsPlaced,
}
use pdo_4d.Memory.Result.{free_elements-AreHeld}
use pdo_4d.Receive.Kinds.Data.{AreKinds}
use pdo_4d.Session.Fetch.{u32}

allocate_all-Wrote :
    (es : List Element) (a : Arena)
    → Wrote a (all_owned (allocate_all es a).places) (allocate_all es a).arena
unfolding allocate_all
allocate_all-Wrote [] a = record {
  grows = omega arith;
  lower = λ p e. ground arith;
  upper = λ p e. ground arith;
  same = λ p e. refl;
  distinct = tt;
}
allocate_all-Wrote (e ∷ es) a =
    let s = allocate e.value a in
    let rest = allocate_all es s.arena in
    Wrote-append a s.arena rest.arena (owns (place_at e s)) (all_owned rest.places)
      (allocate-Wrote e.value a) (allocate_all-Wrote es s.arena)

-- What was written before stays.
IsHeld-Wrote :
    (a b c : Arena) (ps : List Ptr) (x : Place)
    → Wrote a (owns x) b
    → Wrote b ps c
    → IsHeld b.heap x
    → IsHeld c.heap x
IsHeld-Wrote a b c ps x u v held = record {
  kind = held.kind;
  placed =
      IsPlaced-same x.element.value b.heap c.heap x.address x.contents
        (λ q e. ground (arith, u.upper q, v.lower q, v.same q)) held.placed;
}

allocate_all-AreHeld :
    (es : List Element) (a : Arena)
    → AreKinds es
    → 0 < a.next
    → AreHeld (allocate_all es a).arena.heap (allocate_all es a).places
unfolding allocate_all
allocate_all-AreHeld [] a kinds pos = tt
allocate_all-AreHeld (e ∷ es) a (kind, kinds) pos =
    let s = allocate e.value a in
    let rest = allocate_all es s.arena in
    let first = allocate-Wrote e.value a in
    (
      IsHeld-Wrote a s.arena rest.arena (all_owned rest.places) (place_at e s) first
          (allocate_all-Wrote es s.arena)
          (record { kind = kind; placed = allocate-IsPlaced e.value a pos }),
      allocate_all-AreHeld es s.arena kinds (omega (arith, first.grows)),
    )

length-allocate_all :
    (es : List Element) (a : Arena) → length (allocate_all es a).places ≡ length es
unfolding allocate_all
length-allocate_all [] a = refl
length-allocate_all (e ∷ es) a = ap suc (length-allocate_all es (allocate e.value a).arena)

write-here : (h : Heap) (p : Ptr) (b : Option Block) → write h p b p ≡ b
unfolding write
write-here h p b = ground arith

-- The release of the elements leaves the table.
free_data_result-allocate_table :
    (es : List Element) (a : Arena) (res : Table)
    → AreKinds es
    → 0 < a.next
    → ((q : Ptr) → a.next ≤ q → a.heap q ≡ none)
    → res.elmt ≡ a.next
    → length es ≡ res.nb_column * res.row_count_sent
    → res.nb_column * res.row_count_sent < 2 ^ 32
    → (g : Heap) × (free_data_result res (allocate_table es a).arena.heap ≡ ok g)
      × ((q : Ptr)
          → g q ≡ (
              if q == a.next
              then some (elements (map slot_of (allocate_table es a).places))
              else a.heap q))
unfolding free_data_result allocate_table write
free_data_result-allocate_table es a res kinds pos fresh at whole small =
    let start : Arena = calloc (elements []) a in
    let made = allocate_all es start in
    let w = allocate_all-Wrote es start in
    let xs = made.places in
    let h : Heap = write made.arena.heap a.next (some (elements (map slot_of xs))) in
    let out : has a.next (all_owned xs) ≡ false = ground (arith, w.lower a.next) in
    let held : AreHeld h xs =
      AreHeld-write made.arena.heap a.next (some (elements (map slot_of xs))) xs out
        (allocate_all-AreHeld es start kinds (omega arith)) in
    let stands : h a.next ≡ some (elements (map slot_of xs ++ [])) =
      write-here made.arena.heap a.next (some (elements (map slot_of xs)))
      ∙ ap (λ ss. some (elements ss)) (sym (append-nil (map slot_of xs))) in
    let freed : free_elements (length xs) 0 a.next h ≡ ok (removed (all_owned xs) h) =
      free_elements-AreHeld xs h a.next [] [] held w.distinct out stands in
    let count : u32 (res.nb_column * res.row_count_sent) ≡ length xs =
      omega (arith, length-allocate_all es start, whole, small) in
    let there : (a.next == null) ≡ false = ground arith in
    (
      removed (all_owned xs) h,
      rw (at, there, count, free_data_result) freed,
      λ q. removed-at (all_owned xs) h q ∙ ground (arith, w.lower q, w.same q, fresh q),
    )

-- Let nothing be allocated from an address on, and let `res` have `nb_column` times `row_count_sent` elements, fewer
-- than 2 ^ 32, each of the kind that its type says, with the table behind this address, which is not null. When the
-- copy of the column types, the table, the values and their data have been allocated from this address on,
-- `_free_data_result` ends without undefined behaviour, and the heap is the one before the allocations, but for the
-- column types and the table: these two stay.
pub free_data_result-allocate_data :
    (es : List Element) (a : Arena) (res : Table)
    → AreKinds es
    → 0 < a.next
    → ((q : Ptr) → a.next ≤ q → a.heap q ≡ none)
    → res.elmt ≡ a.next + 1
    → length es ≡ res.nb_column * res.row_count_sent
    → res.nb_column * res.row_count_sent < 2 ^ 32
    → (g : Heap) × (free_data_result res (allocate_data es a).arena.heap ≡ ok g)
      × ((q : Ptr)
          → g q ≡ (
              if q == a.next + 1
              then some (elements (map slot_of (allocate_data es a).places))
              else if q == a.next
              then some raw
              else a.heap q))
unfolding allocate_data write
free_data_result-allocate_data es a res kinds pos fresh at whole small =
    free_data_result-allocate_table es (calloc raw a) res kinds (omega arith)
      (λ q h. ground (arith, fresh q)) at whole small
