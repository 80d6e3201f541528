-- ===== src/Client/Field.antt =====
-- The values of the current row: `fourd_field`, `fourd_field_to_string` and the accessors of columns.
pub mod Bounds
pub mod Same
use pdo_4d.Base.{
  ℕ, ◌+◌, ◌-◌, ◌*◌, ◌/◌, ◌%◌, ◌^◌, Bool, true, false, Option, none, some, List, [], ◌∷◌, ◌++◌, leb,
  ltb, ◌==◌, if◌then◌else◌, ℤ, pos, negsuc, signed32, Bytes, codes, snprintf, get_elem?, length,
  take, replicate, le_value, Outcome, ok, fault, ◌>>=◌,
}
use pdo_4d.Connection.{
  Element, Column, Value, Fourd, FourdResult, null_pointer, fixed, timestamp, float, string, blob,
  image,
}
use pdo_4d.Client.Connect.{with_error}
use pdo_4d.FourdType.{
  FourdType, vk_unknow, vk_boolean, vk_byte, vk_word, vk_long, vk_long8, vk_real, vk_float, vk_time,
  vk_timestamp, vk_duration, vk_text, vk_string, vk_blob, vk_image,
}
use pdo_4d.Params.{memcpy}
use pdo_4d.Session.Fetch.{u32}
use pdo_4d.Session.Message.{decimal, format_d}

-- indexElmt
abbrev pub index_elmt : FourdResult → ℕ → ℕ
index_elmt res num_col = u32 (u32 (res.num_row + 2 ^ 32 - res.first_row) * res.nb_column + num_col)

-- res->elmt[index]
unfoldable pub element_at : Option (List Element) → ℕ → Outcome Element
element_at none i = fault
element_at (some elmt) i = elim (get_elem? elmt i) [ none ↦ fault | some e ↦ ok e ]

-- The two guards: `some` is the error text.
abbrev pub out_of_bounds : FourdResult → ℕ → Option Bytes
out_of_bounds res num_col =
    if leb res.row_count res.num_row
    then some (codes "num Row out of bounds")
    else if leb res.nb_column num_col
    then some (codes "num Column out of bounds")
    else none

-- `null_pointer` stands for a returned null pointer.
unfoldable pub fourd_field : Fourd → FourdResult → ℕ → Outcome (Fourd × Value)
unfolding element_at
fourd_field cnx res num_col = elim (out_of_bounds res num_col) [
  | some text ↦ ok (with_error cnx (negsuc 0) text, null_pointer)
  | none ↦ do
    elmt ← element_at res.elmt (index_elmt res num_col)
    ok (cnx, if elmt.is_null then null_pointer else elmt.value)
]

-- What is put into `*value` and `*len`: nothing, a null pointer, or a text.
pub data Output : Type 0 where
  untouched : Output
  null_text : Output
  text : Bytes → Output

-- %0.<w>d of a number that is not negative
abbrev padded : ℕ → ℕ → Bytes
padded w n = replicate (w - length (decimal n)) b'0' ++ decimal n

abbrev padded_d : ℕ → ℤ → Bytes
padded_d w (pos n) = padded w n
padded_d w (negsuc n) = b'-' ∷ padded w (n + 1)

abbrev signed : ℕ → ℕ → ℤ
signed m w = if ltb w (m / 2) then pos w else negsuc (m - w - 1)

-- Hours, minutes, seconds and milliseconds of the day.
unfoldable pub clock : ℕ → Bytes
clock ms =
    let h = ms / 3600000 in
    let in_hour = ms - h * 3600000 in
    let m = in_hour / 60000 in
    let in_minute = in_hour - m * 60000 in
    let s = in_minute / 1000 in
    let milli = in_minute - s * 1000 in
    padded 2 h ++ (b':' ∷ (padded 2 m ++ (b':' ∷ (padded 2 s ++ (b'.' ∷ padded 3 milli)))))

unfoldable pub format_timestamp : Bytes → ℕ → ℕ → Bytes → Bytes
unfolding clock
format_timestamp year mounth day milli = snprintf 24 (
    padded_d 4 (signed 65536 (le_value year))
    ++ (b'-'
        ∷ (padded_d 2 (signed 256 mounth)
            ++ (b'-' ∷ (padded_d 2 (signed 256 day) ++ (b' ' ∷ clock (le_value milli)))))))

-- Four bytes are read, whatever the size of the value.
unfoldable pub format_number : Value → Outcome (Output × ℕ)
format_number (fixed bs) =
    memcpy 4 bs >>= λ w. ok (text (snprintf 22 (format_d (signed32 (le_value w)))), 1)
format_number _ = fault

abbrev format_time : Value → Outcome (Output × ℕ)
format_time (timestamp y m d ms) = ok (text (format_timestamp y m d ms), 1)
format_time _ = fault

-- The switch on the type, for an element that is not null, with the value returned. `format_lf` is the `%lf` of the C library on
-- the eight bytes of a `double`.
unfoldable pub convert : (Bytes → Bytes) → FourdType → Value → Outcome (Output × ℕ)
unfolding format_number format_timestamp
convert format_lf vk_boolean (fixed bs) =
    ok (text (if le_value bs == 0 then codes "1" else codes "0"), 1)
convert format_lf vk_boolean _ = fault
convert format_lf vk_byte v = format_number v
convert format_lf vk_word v = format_number v
convert format_lf vk_long v = format_number v
convert format_lf vk_long8 v = format_number v
convert format_lf vk_duration v = format_number v
convert format_lf vk_real (fixed bs) = ok (text (snprintf 64 (format_lf bs)), 1)
convert format_lf vk_real _ = fault
convert format_lf vk_time v = format_time v
convert format_lf vk_timestamp v = format_time v
convert format_lf vk_string (string n units) = memcpy (n * 2) units >>= λ cs. ok (text cs, 1)
convert format_lf vk_string _ = fault
convert format_lf vk_float v = ok (untouched, 0)
convert format_lf vk_blob v = ok (untouched, 0)
convert format_lf vk_image v = ok (untouched, 0)
convert format_lf vk_unknow v = ok (untouched, 0)
convert format_lf vk_text v = ok (untouched, 0)

unfoldable pub fourd_field_to_string :
    (Bytes → Bytes) → Fourd → FourdResult → ℕ → Outcome (Fourd × (Output × ℕ))
unfolding element_at convert
fourd_field_to_string format_lf cnx res num_col = elim (out_of_bounds res num_col) [
  | some error ↦ ok (with_error cnx (negsuc 0) error, (null_text, 0))
  | none ↦ do
    elmt ← element_at res.elmt (index_elmt res num_col)
    converted ← (if elmt.is_null then ok (null_text, 0) else convert format_lf elmt.type elmt.value)
    ok (cnx, converted)
]

-- The column, where there is one.
abbrev pub column_at : FourdResult → ℕ → Outcome (Option Column)
column_at res num_col = if leb res.nb_column num_col then ok none else elim res.columns [
  | none ↦ ok none
  | some cs ↦ elim (get_elem? cs num_col) [ none ↦ fault | some c ↦ ok (some c) ]
]

unfoldable pub fourd_get_column_name : FourdResult → ℕ → Outcome Bytes
fourd_get_column_name res num_col = do
  c ← column_at res num_col
  ok (elim c [ none ↦ [] | some column ↦ column.s_column_name ])

unfoldable pub fourd_get_column_type : FourdResult → ℕ → Outcome FourdType
fourd_get_column_type res num_col = do
  c ← column_at res num_col
  ok (elim c [ none ↦ vk_unknow | some column ↦ column.type ])
