-- ===== src/Memory/Fetched.antt =====
-- What `_fetch_result` frees of the old rows.
use pdo_4d.Base.{
  ℕ, ◌*◌, ◌^◌, ◌<◌, ◌≡◌, ◌≢◌, ◌∙◌, arith, false, none, some, List, [], ◌∷◌, ◌++◌, map, length, ◌==◌,
  if◌then◌else◌, ok,
}
use pdo_4d.Memory.{
  Ptr, null, Table, elements, result, Heap, write, free, free_data_result, switch_data,
}
use pdo_4d.Memory.Places.{
  has, Distinct, Place, slot_of, all_owned, AreHeld, removed, removed-at, removed-other,
  write-other, AreHeld-write,
}
use pdo_4d.Memory.Release.{free-live}
use pdo_4d.Memory.Result.{free_elements-AreHeld, load_result-holds}
use pdo_4d.Session.Fetch.{u32}

-- A result at `p` whose old rows are `xs` and `ys`, and a new one at `q` with a table of its own and as many elements as `xs`.
pub record IsSwitch (h : Heap) (p q : Ptr) (old new : Table) (xs ys : List Place) : Type 0 where
  pub p_not_null : p ≢ null
  pub q_not_null : q ≢ null
  pub holds_old : h p ≡ some (result old)
  pub holds_new : h q ≡ some (result new)
  pub has_table : old.elmt ≢ null
  pub table : h old.elmt ≡ some (elements (map slot_of xs ++ map slot_of ys))
  pub count : length xs ≡ new.nb_column * new.row_count_sent
  pub small : new.nb_column * new.row_count_sent < 2 ^ 32
  pub held : AreHeld h xs
  pub apart : Distinct (p ∷ (q ∷ (old.elmt ∷ all_owned xs)))

-- The old result behind the exchange.
abbrev pub kept : Table → Table → ℕ → ℕ → Table
kept old new first_row row_count_sent = record old {
  elmt = new.elmt;
  first_row = first_row;
  row_count_sent = row_count_sent;
}

-- The heap behind the exchange, before anything is freed.
abbrev pub switched : Heap → Ptr → Ptr → Table → Table → ℕ → ℕ → Heap
switched h p q old new first_row row_count_sent =
    write (write h q (some (result (record new { elmt = old.elmt })))) p
      (some (result (kept old new first_row row_count_sent)))

free_data_result-part :
    (e : Heap) (old new : Table) (xs ys : List Place)
    → old.elmt ≢ null
    → length xs ≡ new.nb_column * new.row_count_sent
    → new.nb_column * new.row_count_sent < 2 ^ 32
    → AreHeld e xs
    → Distinct (all_owned xs)
    → has old.elmt (all_owned xs) ≡ false
    → e old.elmt ≡ some (elements (map slot_of xs ++ map slot_of ys))
    → free_data_result (record new { elmt = old.elmt }) e ≡ ok (removed (all_owned xs) e)
unfolding free_data_result
free_data_result-part e old new xs ys nn count small held d out table =
    let there : (old.elmt == null) ≡ false = ground (arith, nn) in
    let counted : u32 (new.nb_column * new.row_count_sent) ≡ length xs =
      omega (arith, count, small) in
    rw (there, counted, free_data_result)
      (free_elements-AreHeld xs e old.elmt [] (map slot_of ys) held d out table)

-- `_fetch_result` frees the new result with the blocks of as many old elements as there are new ones. The
-- other old elements, and the table of the old ones, stay allocated, though nothing points to them any more.
pub switch_data-frees :
    (h : Heap) (p q : Ptr) (old new : Table) (xs ys : List Place) (first_row row_count_sent : ℕ)
    → IsSwitch h p q old new xs ys
    → (g : Heap) × (switch_data p q first_row row_count_sent h ≡ ok g)
      × (g p ≡ some (result (kept old new first_row row_count_sent)))
      × ((a : Ptr)
          → g a ≡ (
              if has a (q ∷ all_owned xs)
              then none
              else switched h p q old new first_row row_count_sent a))
unfolding switch_data write
switch_data-frees h p q old new xs ys first_row row_count_sent s =
    let g : Heap = write h q (some (result (record new { elmt = old.elmt }))) in
    let e : Heap = switched h p q old new first_row row_count_sent in
    let f : Heap = removed (all_owned xs) e in
    let out_p : has p (all_owned xs) ≡ false = ground (arith, s.apart.0) in
    let out_q : has q (all_owned xs) ≡ false = ground (arith, s.apart.1.0) in
    let held : AreHeld e xs = AreHeld-write g p _ xs out_p (AreHeld-write h q _ xs out_q s.held) in
    let q_is_not_p : (q == p) ≡ false = ground (arith, s.apart.0) in
    let table_stays : e old.elmt ≡ some (elements (map slot_of xs ++ map slot_of ys)) =
      ground (arith, s.apart.0, s.apart.1.0, s.table) in
    let freed : free_data_result (record new { elmt = old.elmt }) e ≡ ok f =
      free_data_result-part e old new xs ys s.has_table s.count s.small held s.apart.1.1.1
        s.apart.1.1.0 table_stays in
    let new_stays : f q ≡ some (result (record new { elmt = old.elmt })) =
      removed-other (all_owned xs) e q out_q ∙ ground (arith, q_is_not_p) in
    let p_is_not_q : (p == q) ≡ false = ground (arith, s.apart.0) in
    let p_stays : f p ≡ some (result (kept old new first_row row_count_sent)) =
      removed-other (all_owned xs) e p out_p ∙ ground arith in
    let last : free q f ≡ ok (write f q none) =
      free-live q f (result (record new { elmt = old.elmt })) s.q_not_null new_stays in
    (
      write f q none,
      rw
          (
            load_result-holds h p old s.holds_old,
            load_result-holds h q new s.holds_new,
            freed,
            switch_data,
          )
          last,
      write-other f q p none p_is_not_q ∙ p_stays,
      λ a. ground (arith, removed-at (all_owned xs) e a),
    )
