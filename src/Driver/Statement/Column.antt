-- ===== src/Driver/Statement/Column.antt =====
-- 4d_statement.c, `pdo_4d_stmt_get_col`: what PHP gets of a column of the current row.
use pdo_4d.Base.{
  ℕ, ◌+◌, ◌-◌, ◌*◌, ◌<◌, ◌≡◌, ◌⊎◌, inl, inr, refl, ap, ◌∙◌, Bool-cases, arith, true, false, Option,
  none, some, List, leb, lt→leb, if◌then◌else◌, get_elem?, Bytes, ok,
}
use pdo_4d.Client.Cursor.Window.{IsCurrent}
use pdo_4d.Client.Field.{
  Output, null_text, text, untouched, index_elmt, element_at, fourd_field, fourd_field_to_string,
  convert, fourd_get_column_type,
}
use pdo_4d.Client.Field.Bounds.{IsTable, index_elmt-current, out_of_bounds-current}
use pdo_4d.Connection.{Element, Column, Fourd, FourdResult, Value, null_pointer}
use pdo_4d.Driver.{Stmt}
use pdo_4d.Driver.Statement.{is_binary, encoding_of, octets, pointer, get_col, pdo_4d_stmt_get_col}
use pdo_4d.Driver.Statement.Whole.{IsFull, contents, convert-full, binary-full}
use pdo_4d.FourdType.{FourdType}

-- A blob or an image is shown as it is, another value in the charset of the statement.
abbrev pub shown :
    (Option Bytes → Bytes → Bytes → Option Bytes) → Bytes → FourdType → Option Bytes → Option Bytes
shown mb_convert_encoding charset t s =
    if is_binary t then s else mb_convert_encoding s charset (encoding_of t)

module _ (res : FourdResult) (elmt : List Element) (num_col : ℕ) (e : Element) (c : IsCurrent res)
    (t : IsTable res elmt) (h : num_col < res.nb_column)
    (found : get_elem? elmt ((res.num_row - res.first_row) * res.nb_column + num_col)
      ≡ some e) where
  element_at-current : element_at res.elmt (index_elmt res num_col) ≡ ok e
  unfolding element_at
  element_at-current =
      rw (t.elements, index_elmt-current res elmt num_col c t h, found, element_at) refl

  fourd_field-full :
      (cnx : Fourd)
      → fourd_field cnx res num_col ≡ ok (cnx, if e.is_null then null_pointer else e.value)
  unfolding fourd_field
  fourd_field-full cnx =
      rw (out_of_bounds-current res elmt num_col c t h, element_at-current, fourd_field) refl

  fourd_field_to_string-full :
      (format_lf : Bytes → Bytes) (cnx : Fourd) (out : Output × ℕ)
      → (if e.is_null then ok (null_text, 0) else convert format_lf e.type e.value) ≡ ok out
      → fourd_field_to_string format_lf cnx res num_col ≡ ok (cnx, out)
  unfolding fourd_field_to_string
  fourd_field_to_string-full format_lf cnx out o =
      rw
        (out_of_bounds-current res elmt num_col c t h, element_at-current, o, fourd_field_to_string)
        refl

-- A null, or a whole value.
abbrev pub IsShowable : Element → Type 0
IsShowable e = (e.is_null ≡ true) ⊎ ((e.is_null ≡ false) × IsFull e.type e.value)

abbrev pub contents_of : (Bytes → Bytes) → Element → Option Bytes
contents_of format_lf e = if e.is_null then none else some (contents format_lf e.value e.type)

fourd_get_column_type-at :
    (res : FourdResult) (columns : List Column) (column : Column) (num_col : ℕ)
    → num_col < res.nb_column
    → res.columns ≡ some columns
    → get_elem? columns num_col ≡ some column
    → fourd_get_column_type res num_col ≡ ok column.type
unfolding fourd_get_column_type
fourd_get_column_type-at res columns column num_col h cs found =
    rw (lt→leb num_col res.nb_column h, cs, found, fourd_get_column_type) refl

module _ (mb_convert_encoding : Option Bytes → Bytes → Bytes → Option Bytes)
    (format_lf : Bytes → Bytes) (stmt : Stmt) (res : FourdResult) (colno : ℕ) (t : FourdType)
    (type_is : fourd_get_column_type res colno ≡ ok t) where
  -- Another column than a binary one.
  get_col-text :
      (out : Output × ℕ)
      → fourd_field_to_string format_lf stmt.dbh.server res colno ≡ ok (stmt.dbh.server, out)
      → is_binary t ≡ false
      → get_col mb_convert_encoding format_lf stmt res colno
        ≡ ok (stmt.dbh.server, mb_convert_encoding (pointer out.0) stmt.charset (encoding_of t))
  unfolding get_col
  get_col-text out e b = rw (e, type_is, b, get_col) refl

  get_col-binary :
      (out : Output × ℕ) (v : Value) (bytes : Option Bytes)
      → fourd_field_to_string format_lf stmt.dbh.server res colno ≡ ok (stmt.dbh.server, out)
      → fourd_field stmt.dbh.server res colno ≡ ok (stmt.dbh.server, v)
      → octets v ≡ ok bytes
      → is_binary t ≡ true
      → get_col mb_convert_encoding format_lf stmt res colno ≡ ok (stmt.dbh.server, bytes)
  unfolding get_col
  get_col-binary out v bytes e f o b = rw (e, type_is, b, f, o, get_col) refl

-- The cursor stands on a row of the window, whose whole table is held, and a column of the table is looked at.
pub record IsCell (stmt : Stmt) (res : FourdResult) (colno : ℕ) (e : Element) : Type 0 where
  pub elmt : List Element
  pub columns : List Column
  pub column : Column
  pub has_result : stmt.result ≡ some res
  pub all_columns : stmt.column_count ≡ res.nb_column
  pub in_row : colno < res.nb_column
  pub current : IsCurrent res
  pub table : IsTable res elmt
  pub has_columns : res.columns ≡ some columns
  pub column_found : get_elem? columns colno ≡ some column
  pub found : get_elem? elmt ((res.num_row - res.first_row) * res.nb_column + colno) ≡ some e
  pub same_type : column.type ≡ e.type

get_col-IsCell :
    (mb_convert_encoding : Option Bytes → Bytes → Bytes → Option Bytes) (format_lf : Bytes → Bytes)
    (stmt : Stmt) (res : FourdResult) (colno : ℕ) (e : Element)
    → IsCell stmt res colno e
    → IsShowable e
    → get_col mb_convert_encoding format_lf stmt res colno
      ≡ ok
          (stmt.dbh.server, shown mb_convert_encoding stmt.charset e.type (contents_of format_lf e))
get_col-IsCell mb lf stmt res colno e cell s =
    let server = stmt.dbh.server in
    let type_is : fourd_get_column_type res colno ≡ ok e.type =
      fourd_get_column_type-at res cell.columns cell.column colno cell.in_row cell.has_columns
        cell.column_found
      ∙ ap ok cell.same_type in
    let field =
      fourd_field-full res cell.elmt colno e cell.current cell.table cell.in_row cell.found
        server in
    let string =
      fourd_field_to_string-full res cell.elmt colno e cell.current cell.table cell.in_row
        cell.found lf server in
    elim s [
      | inl null ↦ elim (Bool-cases (is_binary e.type)) [
        | inl b ↦
            rw (null, b)
              (get_col-binary mb lf stmt res colno e.type type_is (null_text, 0) null_pointer none
                (string (null_text, 0) (rw null refl)) (rw null at field) refl b)
        | inr b ↦
            rw (null, b)
              (get_col-text mb lf stmt res colno e.type type_is (null_text, 0)
                (string (null_text, 0) (rw null refl)) b)
      ]
      | inr (there, full) ↦ elim (Bool-cases (is_binary e.type)) [
        | inl b ↦
            let (silent, bytes) = binary-full lf e.type e.value b full in
            rw (there, b)
              (get_col-binary mb lf stmt res colno e.type type_is (untouched, 0) e.value
                (some (contents lf e.value e.type)) (string (untouched, 0) (rw there silent))
                (rw there at field) bytes b)
        | inr b ↦
            rw (there, b)
              (get_col-text mb lf stmt res colno e.type type_is
                (text (contents lf e.value e.type), 1)
                (string (text (contents lf e.value e.type), 1)
                  (rw there (convert-full lf e.type e.value b full)))
                b)
      ]
    ]

-- Let the cursor stand on a row of its window, whose whole table is held, let the statement have the columns of the result, and look at one of
-- them. Let the element there have the type of its column, and be null or have all its bytes: a boolean, an integer of 32 or 64 bits, a
-- duration, a real, a timestamp, a string, a blob or an image. `pdo_4d_stmt_get_col` then gives a blob or an image byte by
-- byte. Of any other value it gives what PHP's conversion to the charset of the statement makes of its text: of the
-- characters of a string, of the first four bytes of an integer as a whole decimal, of "1" for false and "0" for true. A null has no bytes and
-- no text. The statement stays as it is.
pub pdo_4d_stmt_get_col-shown :
    (mb_convert_encoding : Option Bytes → Bytes → Bytes → Option Bytes) (format_lf : Bytes → Bytes)
    (stmt : Stmt) (res : FourdResult) (colno : ℕ) (e : Element)
    → IsCell stmt res colno e
    → IsShowable e
    → pdo_4d_stmt_get_col mb_convert_encoding format_lf stmt colno
      ≡ ok (stmt, some (shown mb_convert_encoding stmt.charset e.type (contents_of format_lf e)))
unfolding pdo_4d_stmt_get_col
pdo_4d_stmt_get_col-shown mb lf stmt res colno e cell s =
    let inside : leb stmt.column_count colno ≡ false =
      lt→leb colno stmt.column_count (omega (arith, cell.in_row, cell.all_columns)) in
    rw (cell.has_result, inside, get_col-IsCell mb lf stmt res colno e cell s, pdo_4d_stmt_get_col)
      refl
