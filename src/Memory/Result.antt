-- ===== src/Memory/Result.antt =====
-- The release of a whole result.
use pdo_4d.Base.{
  ◌+◌, ◌*◌, ◌^◌, ◌<◌, ◌≡◌, ◌≢◌, refl, sym, ap, ◌∙◌, arith, false, none, some, List, [], ◌∷◌, ◌++◌,
  map, append-nil, append_assoc, length, length-append, get_elem?, ◌==◌, if◌then◌else◌, ok,
}
use pdo_4d.Memory.{
  Ptr, null, Slot, Table, elements, result, Heap, write, free, load_slot, free_elements,
  free_data_result, load_result, fourd_free_result,
}
use pdo_4d.Memory.Places.{
  has, Distinct, Place, slot_of, owns, all_owned, AreHeld, removed, removed-at, not_in_append,
  AreHeld-removed, Distinct-append, removed-append, removed-other,
}
use pdo_4d.Memory.Release.{free-live, free_element-IsPlaced}
use pdo_4d.Session.Fetch.{u32}

get_elem?-middle :
    (pre : List Slot) (s : Slot) (rest : List Slot)
    → get_elem? (pre ++ (s ∷ rest)) (length pre) ≡ some s
get_elem?-middle [] s rest = refl
get_elem?-middle (x ∷ pre) s rest = get_elem?-middle pre s rest

load_slot-middle :
    (h : Heap) (table : Ptr) (pre : List Slot) (s : Slot) (rest : List Slot)
    → h table ≡ some (elements (pre ++ (s ∷ rest)))
    → load_slot table (length pre) h ≡ ok s
unfolding load_slot
load_slot-middle h table pre s rest e = rw (e, get_elem?-middle pre s rest, load_slot) refl

slots : List Place → List Slot
slots = map slot_of

-- The loop over some elements of a table frees what they own.
pub free_elements-AreHeld :
    (xs : List Place) (h : Heap) (table : Ptr) (pre more : List Slot)
    → AreHeld h xs
    → Distinct (all_owned xs)
    → has table (all_owned xs) ≡ false
    → h table ≡ some (elements (pre ++ (map slot_of xs ++ more)))
    → free_elements (length xs) (length pre) table h ≡ ok (removed (all_owned xs) h)
unfolding free_elements
free_elements-AreHeld [] h table pre more held d out e = refl
free_elements-AreHeld (x ∷ xs) h table pre more (first, rest) d out e =
    let g : Heap = removed (owns x) h in
    let (d_first, d_rest) = Distinct-append (owns x) (all_owned xs) d in
    let (out_first, out_rest) = not_in_append table (owns x) (all_owned xs) out in
    let slot = load_slot-middle h table pre (slot_of x) (map slot_of xs ++ more) e in
    let freed =
      free_element-IsPlaced x.element.type x.element.value h x.address x.contents first.kind
        first.placed d_first in
    let table_stays : g table
        ≡ some (elements ((pre ++ slot_of x ∷ []) ++ (map slot_of xs ++ more))) =
      removed-other (owns x) h table out_first
      ∙ (e
          ∙ ap (λ ss. some (elements ss))
              (sym (append_assoc pre (slot_of x ∷ []) (map slot_of xs ++ more)))) in
    let later =
      free_elements-AreHeld xs g table (pre ++ slot_of x ∷ []) more
        (AreHeld-removed (owns x) h xs d rest) d_rest out_rest table_stays in
    let next : length pre + 1 ≡ length (pre ++ slot_of x ∷ []) =
      omega (arith, length-append pre (slot_of x ∷ [])) in
    rw (slot, free_elements)
      (rw (freed, free_elements)
        (ap (λ i. free_elements (length xs) i table g) next
          ∙ (later ∙ sym (ap ok (removed-append (owns x) (all_owned xs) h)))))

-- A result at `p` with the whole table of its elements, each in blocks of its own.
pub record IsOwnedResult (h : Heap) (p : Ptr) (res : Table) (xs : List Place) : Type 0 where
  pub not_null : p ≢ null
  pub holds : h p ≡ some (result res)
  pub has_table : res.elmt ≢ null
  pub table : h res.elmt ≡ some (elements (map slot_of xs))
  pub whole : length xs ≡ res.nb_column * res.row_count_sent
  pub small : res.nb_column * res.row_count_sent < 2 ^ 32
  pub held : AreHeld h xs
  pub apart : Distinct (p ∷ (res.elmt ∷ all_owned xs))

pub load_result-holds :
    (h : Heap) (p : Ptr) (res : Table) → h p ≡ some (result res) → load_result p h ≡ ok res
unfolding load_result
load_result-holds h p res e = rw (e, load_result) refl

free_data_result-AreHeld :
    (h : Heap) (p : Ptr) (res : Table) (xs : List Place)
    → IsOwnedResult h p res xs
    → free_data_result res h ≡ ok (removed (all_owned xs) h)
unfolding free_data_result
free_data_result-AreHeld h p res xs r =
    let count : u32 (res.nb_column * res.row_count_sent) ≡ length xs =
      omega (arith, r.whole, r.small) in
    let there : (res.elmt == null) ≡ false = ground (arith, r.has_table) in
    rw (there, count, free_data_result)
      (free_elements-AreHeld xs h res.elmt [] [] r.held r.apart.1.1 r.apart.1.0
        (r.table ∙ ap (λ ss. some (elements ss)) (sym (append-nil (map slot_of xs)))))

-- Let a result hold the whole table of its elements, of fewer than 2 ^ 32 elements, each of the kind that its type says, in blocks that are
-- all different. `fourd_free_result` then ends without undefined behaviour, and it frees exactly the block of the
-- result, the blocks of the values, and the blocks of their data: everything else, the table of the elements
-- among it, stays allocated.
pub fourd_free_result-frees :
    (h : Heap) (p : Ptr) (res : Table) (xs : List Place)
    → IsOwnedResult h p res xs
    → (g : Heap) × (fourd_free_result p h ≡ ok g)
      × ((a : Ptr) → g a ≡ (if has a (p ∷ all_owned xs) then none else h a))
unfolding fourd_free_result write
fourd_free_result-frees h p res xs r =
    let f : Heap = removed (all_owned xs) h in
    let here : (p == null) ≡ false = ground (arith, r.not_null) in
    let loaded : load_result p h ≡ ok res = load_result-holds h p res r.holds in
    let out : has p (all_owned xs) ≡ false = ground (arith, r.apart.0) in
    let freed : free p f ≡ ok (write f p none) =
      free-live p f (result res) r.not_null (removed-other (all_owned xs) h p out ∙ r.holds) in
    (
      write f p none,
      rw (here, loaded, free_data_result-AreHeld h p res xs r, fourd_free_result)
          (rw (here, free) at freed),
      λ a. ground (arith, removed-at (all_owned xs) h a),
    )
