-- ===== src/Receive/Elements.antt =====
-- One element of a row: its status code, and its value by the type of the column.
use pdo_4d.Base.{
  ℕ, ◌+◌, ◌-◌, ◌*◌, ◌^◌, Bool, true, false, [], ltb, ◌==◌, if◌then◌else◌, ℤ, pos, negsuc, signed32,
  signed64, Bytes, le_value,
}
use pdo_4d.Connection.{Element, Value, null_pointer, fixed, timestamp, float, string, blob, image}
use pdo_4d.FourdType.{
  FourdType, vk_unknow, vk_boolean, vk_byte, vk_word, vk_long, vk_long8, vk_real, vk_float, vk_time,
  vk_timestamp, vk_duration, vk_text, vk_string, vk_blob, vk_image, vk_sizeof,
}
use pdo_4d.Proc.{Proc, ret, fails, read, ◌>>=◌}

-- An element, or the error code behind the status `2`.
pub data Cell : Type 0 where
  cell : Element → Cell
  broken : ℤ → Cell

abbrev element : FourdType → Bool → Value → Cell
element t n v = cell (record { type = t; is_null = n; value = v })

abbrev size_of : ℤ → ℕ
size_of (pos n) = n
size_of (negsuc n) = 0

abbrev read_fixed : FourdType → Proc Cell
read_fixed t = read (size_of (vk_sizeof t)) λ bs. ret (element t false (fixed bs))

abbrev read_timestamp : Proc Cell
read_timestamp = do
  year ← read 2 ret
  mounth ← read 1 ret
  day ← read 1 ret
  milli ← read 4 ret
  ret (element vk_timestamp false (timestamp year (le_value mounth) (le_value day) milli))

-- `tmp->data` is the null pointer: `recv` refuses it, and the digits stay in the stream. That a
-- peer that has closed makes it return 0 for ever instead is left aside.
abbrev read_float : Proc Cell
read_float = do
  exp ← read 4 ret
  sign ← read 1 ret
  data_length ← read 4 ret
  ret (element vk_float false (float exp (le_value sign) data_length []))

-- The length is sent negated. A positive one asks for a negative size, and from 2 ^ 30 - 1 on the size overflows an `int`.
unfoldable pub read_characters : ℤ → Proc Cell
read_characters (pos n) = if n == 0 then ret (element vk_string false (string 0 [])) else fails
read_characters (negsuc n) =
    if ltb (n + 1) (2 ^ 30 - 1)
    then (read ((n + 1) * 2) λ bs. ret (element vk_string false (string (n + 1) bs)))
    else fails

-- A negative size gets no memory, and nothing is read.
unfoldable pub read_bytes : FourdType → (ℕ → Bytes → Value) → ℕ → Proc Cell
read_bytes t v n =
    if n == 0
    then ret (element t true (v 0 []))
    else if ltb n (2 ^ 31)
    then (read n λ bs. ret (element t false (v n bs)))
    else ret (element t false (v n []))

-- The switch on the type of the column, for a value that is not null.
unfoldable pub read_value : FourdType → Proc Cell
unfolding read_characters read_bytes vk_sizeof
read_value vk_boolean = read_fixed vk_boolean
read_value vk_byte = read_fixed vk_byte
read_value vk_word = read_fixed vk_word
read_value vk_long = read_fixed vk_long
read_value vk_long8 = read_fixed vk_long8
read_value vk_real = read_fixed vk_real
read_value vk_duration = read_fixed vk_duration
read_value vk_timestamp = read_timestamp
read_value vk_float = read_float
read_value vk_string = read 4 λ bs. read_characters (signed32 (le_value bs))
read_value vk_image = read 4 λ bs. read_bytes vk_image image (le_value bs)
read_value vk_blob = read 4 λ bs. read_bytes vk_blob blob (le_value bs)
read_value vk_unknow = ret (element vk_unknow false null_pointer)
read_value vk_time = ret (element vk_time false null_pointer)
read_value vk_text = ret (element vk_text false null_pointer)

-- The switch on the status code.
unfoldable pub read_cell : FourdType → Proc Cell
unfolding read_value
read_cell t = do
  status_code ← read 1 ret
  (if le_value status_code == b'2'
      then (read 8 λ code. ret (broken (signed64 (le_value code))))
      else if le_value status_code == b'0'
      then ret (element t true null_pointer)
      else if le_value status_code == b'1'
      then read_value t
      else ret (element t false null_pointer))
