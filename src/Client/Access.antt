-- ===== src/Client/Access.antt =====
-- lib4d_sql/fourd.c and fourd_result.c: the accessors of a connection, a result and a statement, and the two typed readers of a
-- field that look at no bounds.
use pdo_4d.Base.{
  ℕ, Option, if◌then◌else◌, ltb, ℤ, pos, signed32, Bytes, length, Outcome, ok, fault, ◌>>=◌,
}
use pdo_4d.Client.Field.{index_elmt, element_at}
use pdo_4d.Connection.{
  Value, Fourd, FourdResult, FourdStatement, null_pointer, fixed, timestamp, float, string, blob,
  image,
}

abbrev pub fourd_affected_rows : Fourd → ℤ
fourd_affected_rows cnx = cnx.updated_row

abbrev pub fourd_error_text : Fourd → Bytes
fourd_error_text cnx = cnx.error_string

abbrev pub fourd_timeout : Fourd → ℤ → Fourd
fourd_timeout cnx timeout = record cnx { timeout = timeout }

abbrev pub fourd_get_preferred_image_types : Fourd → Option Bytes
fourd_get_preferred_image_types cnx = cnx.preferred_image_types

abbrev pub fourd_set_statement_preferred_image_types :
    FourdStatement → Option Bytes → FourdStatement
fourd_set_statement_preferred_image_types state types = record state {
  preferred_image_types = types;
}

abbrev pub fourd_get_statement_preferred_image_types : FourdStatement → Option Bytes
fourd_get_statement_preferred_image_types state = state.preferred_image_types

-- fourd_result.c; `row_count` is an `unsigned int`.
abbrev pub fourd_num_rows : FourdResult → ℤ
fourd_num_rows res = pos res.row_count

-- `nbColumn` is an `unsigned int`, the value returned an `int`.
abbrev pub fourd_num_columns : FourdResult → ℤ
fourd_num_columns res = signed32 res.nb_column

-- *((int *)pValue); every structure is at least as large as an `int`.
abbrev read_int : Value → Outcome Value
read_int null_pointer = fault
read_int (fixed bs) = if ltb (length bs) 4 then fault else ok (fixed bs)
read_int (timestamp y m d ms) = ok (timestamp y m d ms)
read_int (float e s n ds) = ok (float e s n ds)
read_int (string n cs) = ok (string n cs)
read_int (blob n bs) = ok (blob n bs)
read_int (image n bs) = ok (image n bs)

-- `pValue` behind a read of an `int` at this place, or a null pointer.
unfoldable pub fourd_field_long : FourdResult → ℕ → Outcome Value
unfolding element_at
fourd_field_long res num_col = do
  elmt ← element_at res.elmt (index_elmt res num_col)
  (if elmt.is_null then ok null_pointer else read_int elmt.value)

-- `pValue`, or a null pointer.
unfoldable pub fourd_field_string : FourdResult → ℕ → Outcome Value
unfolding element_at
fourd_field_string res num_col = do
  elmt ← element_at res.elmt (index_elmt res num_col)
  ok (if elmt.is_null then null_pointer else elmt.value)
