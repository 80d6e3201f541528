-- ===== src/Client/Field/Bounds.antt =====
-- The value of a row that is held.
use pdo_4d.Base.{
  ℕ, zero, suc, ◌+◌, ◌-◌, ◌*◌, ◌^◌, ◌<◌, ◌≡◌, refl, arith, false, none, some, List, [], ◌∷◌, length,
  get_elem?, leb, lt→leb, if◌then◌else◌, ok,
}
use pdo_4d.Client.Cursor.Window.{IsCurrent}
use pdo_4d.Client.Field.{out_of_bounds, index_elmt, element_at, fourd_field}
use pdo_4d.Connection.{Element, Fourd, FourdResult, null_pointer}
use pdo_4d.Session.Fetch.{u32}

-- A table of `rows` times `cols` elements has this row and column.
index_lt : (i rows cols c : ℕ) → i < rows → c < cols → i * cols + c < cols * rows
index_lt i zero cols c h g = absurd (omega arith)
index_lt zero (suc rows) cols c h g = omega (arith)
index_lt (suc i) (suc rows) cols c h g = omega (arith, index_lt i rows cols c (omega arith) g)

get_elem?-some {ℓ} :
    {A : Type ℓ} (xs : List A) (i : ℕ) → i < length xs → (a : A) × (get_elem? xs i ≡ some a)
get_elem?-some [] i h = absurd (omega arith)
get_elem?-some (x ∷ xs) zero h = (x, refl)
get_elem?-some (x ∷ xs) (suc i) h = get_elem?-some xs i (omega arith)

-- The row's offset in the window, as a number and as the program computes it.
offset :
    (res : FourdResult)
    → IsCurrent res
    → u32 (res.num_row + 2 ^ 32 - res.first_row) ≡ res.num_row - res.first_row
offset res c = omega (arith, c.small, c.held, c.first, c.last)

-- A result that holds a whole table, below 2 ^ 32 elements.
pub record IsTable (res : FourdResult) (elmt : List Element) : Type 0 where
  pub elements : res.elmt ≡ some elmt
  pub whole : length elmt ≡ res.nb_column * res.row_count_sent
  pub small : res.nb_column * res.row_count_sent < 2 ^ 32

-- For a row of the window and a column of the table, the guards let through, and the index is inside of the table.
module _ (res : FourdResult) (elmt : List Element) (num_col : ℕ) (c : IsCurrent res)
    (t : IsTable res elmt) (h : num_col < res.nb_column) where
  inside :
      (res.num_row - res.first_row) * res.nb_column + num_col < res.nb_column * res.row_count_sent
  inside =
      index_lt (res.num_row - res.first_row) res.row_count_sent res.nb_column num_col
        (omega (arith, c.first, c.last)) h

  pub index_elmt-current :
      index_elmt res num_col ≡ (res.num_row - res.first_row) * res.nb_column + num_col
  index_elmt-current = rw (offset res c) (omega (arith, t.small, inside))

  pub out_of_bounds-current : out_of_bounds res num_col ≡ none
  out_of_bounds-current =
      let row : leb res.row_count res.num_row ≡ false =
        lt→leb res.num_row res.row_count (omega (arith, c.held, c.last)) in
      let column : leb res.nb_column num_col ≡ false = lt→leb num_col res.nb_column h in
      rw (row, column) refl

-- Let the cursor stand on a row of its window, and let the result hold the window's whole table, of fewer than 2
-- ^ 32 elements. For a column of the table `fourd_field` reads inside the table and returns the value of the
-- element of this row and column, and a null pointer for a null.
pub fourd_field_current :
    (cnx : Fourd) (res : FourdResult) (elmt : List Element) (num_col : ℕ)
    → IsCurrent res
    → IsTable res elmt
    → num_col < res.nb_column
    → (e : Element) × (get_elem? elmt ((res.num_row - res.first_row) * res.nb_column + num_col)
        ≡ some e)
      × (fourd_field cnx res num_col ≡ ok (cnx, if e.is_null then null_pointer else e.value))
unfolding fourd_field element_at
fourd_field_current cnx res elmt num_col c t h =
    let (e, found) =
      get_elem?-some elmt ((res.num_row - res.first_row) * res.nb_column + num_col)
        (omega (arith, t.whole, inside res elmt num_col c t h)) in
    (
      e,
      found,
      rw
          (
            out_of_bounds-current res elmt num_col c t h,
            t.elements,
            index_elmt-current res elmt num_col c t h,
            found,
            fourd_field,
            element_at,
          )
          refl,
    )
