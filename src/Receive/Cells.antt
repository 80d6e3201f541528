-- ===== src/Receive/Cells.antt =====
-- The elements of the rows that a server sends, by row and column.
use pdo_4d.Base.{
  ℕ, zero, suc, ◌+◌, ◌*◌, ◌<◌, ◌≡◌, refl, sym, ap, subst, ◌∙◌, arith, some, List, [], ◌∷◌, ◌++◌,
  map, length, get_elem?,
}
use pdo_4d.Connection.{Element, Column}
use pdo_4d.FourdType.{FourdType}
use pdo_4d.Receive.Wire.{Row, table, IsSent, AllSent, AreRows}

get_elem?-left {ℓ} :
    {A : Type ℓ} (xs ys : List A) (i : ℕ) → i < length xs → get_elem? (xs ++ ys) i ≡ get_elem? xs i
get_elem?-left [] ys i h = absurd (omega arith)
get_elem?-left (x ∷ xs) ys zero h = refl
get_elem?-left (x ∷ xs) ys (suc i) h = get_elem?-left xs ys i (omega arith)

get_elem?-right {ℓ} :
    {A : Type ℓ} (xs ys : List A) (i : ℕ) → get_elem? (xs ++ ys) (length xs + i) ≡ get_elem? ys i
get_elem?-right [] ys i = let start : 0 + i ≡ i = omega arith in ap (get_elem? ys) start
get_elem?-right (x ∷ xs) ys i =
    let next : suc (length xs) + i ≡ suc (length xs + i) = omega arith in
    ap (get_elem? (x ∷ (xs ++ ys))) next ∙ get_elem?-right xs ys i

length-map_type : (es : List Element) → length (map (λ (e : Element). e.type) es) ≡ length es
length-map_type [] = refl
length-map_type (e ∷ es) = ap suc (length-map_type es)

-- An element of a row, with its column.
cell-AllSent :
    (es : List Element) (i : ℕ) (e : Element)
    → AllSent es
    → get_elem? es i ≡ some e
    → (get_elem? (map (λ (e : Element). e.type) es) i ≡ some e.type) × IsSent e
cell-AllSent [] i e all found = absurd (cc)
cell-AllSent (x ∷ es) zero e (first, all) found =
    let same : x ≡ e = cc in (ap (λ (y : Element). some y.type) same, subst IsSent same first)
cell-AllSent (x ∷ es) (suc i) e (first, all) found = cell-AllSent es i e all found

pub cell-AreRows :
    (types : List FourdType) (rows : List Row) (row col : ℕ) (e : Element)
    → AreRows types rows
    → col < length types
    → get_elem? (table rows) (row * length types + col) ≡ some e
    → (get_elem? types col ≡ some e.type) × IsSent e
cell-AreRows types [] row col e all h found = absurd (cc)
cell-AreRows types (r ∷ rows) zero col e ((id, types_are, sent), all) h found =
    let wide : length r.elements ≡ length types =
      sym (length-map_type r.elements) ∙ ap length types_are in
    let first : col ≡ 0 * length types + col = omega arith in
    let here : get_elem? r.elements col ≡ some e =
      sym (get_elem?-left r.elements (table rows) col (omega (arith, wide, h)))
      ∙ (ap (get_elem? (r.elements ++ table rows)) first ∙ found) in
    let (type, is_sent) = cell-AllSent r.elements col e sent here in
    (sym (ap (λ ts. get_elem? ts col) types_are) ∙ type, is_sent)
cell-AreRows types (r ∷ rows) (suc row) col e ((id, types_are, sent), all) h found =
    let wide : length r.elements ≡ length types =
      sym (length-map_type r.elements) ∙ ap length types_are in
    let index : length r.elements + (row * length types + col) ≡ suc row * length types + col =
      omega (arith, wide) in
    cell-AreRows types rows row col e all h (
      sym (get_elem?-right r.elements (table rows) (row * length types + col))
      ∙ (ap (get_elem? (r.elements ++ table rows)) index ∙ found))

-- The column of a type.
pub column_at-type :
    (cs : List Column) (i : ℕ) (t : FourdType)
    → get_elem? (map (λ (c : Column). c.type) cs) i ≡ some t
    → (c : Column) × (get_elem? cs i ≡ some c) × (c.type ≡ t)
column_at-type [] i t h = absurd (cc)
column_at-type (c ∷ cs) zero t h = (c, refl, cc)
column_at-type (c ∷ cs) (suc i) t h = column_at-type cs i t h
