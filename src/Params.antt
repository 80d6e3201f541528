-- ===== src/Params.antt =====
-- lib4d_sql/fourd_interne.c: `_copy` and `_serialize`, for the parameters of a statement.
pub mod Laws
use pdo_4d.Base.{
  ℕ, ◌+◌, ◌-◌, ◌*◌, ◌%◌, ◌^◌, Bool, true, false, List, [], ◌∷◌, ◌++◌, ltb, leb, if◌then◌else◌, ℤ,
  pos, negsuc, Bytes, length, take, le_bytes, le_value, get_or, Outcome, ok, fault, ◌>>=◌,
}
use pdo_4d.Connection.{Element, Value, null_pointer, fixed, timestamp, float, string, blob, image}
use pdo_4d.FourdType.{
  FourdType, vk_unknow, vk_boolean, vk_byte, vk_word, vk_long, vk_long8, vk_real, vk_float, vk_time,
  vk_timestamp, vk_duration, vk_text, vk_string, vk_blob, vk_image, vk_sizeof,
}

-- memcpy of `n` bytes from an array: a read behind its end is undefined.
unfoldable pub memcpy : ℕ → Bytes → Outcome Bytes
memcpy n bs = if leb n (length bs) then ok (take n bs) else fault

-- memcpy of `length*2` bytes, where `length` is an `int`.
unfoldable pub memcpy_twice : ℕ → Bytes → Outcome Bytes
unfolding memcpy
memcpy_twice n bs = if leb (2 ^ 30) n then fault else memcpy (n * 2) bs

abbrev size_of : ℤ → ℕ
size_of (pos n) = n
size_of (negsuc n) = 0

-- A value under a type of another layout is not met in the library.
abbrev copy_number : FourdType → Value → Outcome Value
copy_number t (fixed bs) = memcpy (size_of (vk_sizeof t)) bs >>= λ cs. ok (fixed cs)
copy_number t _ = fault

copy_value : FourdType → Value → Outcome Value
copy_value vk_timestamp (timestamp y m d ms) = ok (timestamp y m d ms)
copy_value vk_float (float e s n digits) = memcpy (le_value n) digits >>= λ cs. ok (float e s n cs)
copy_value vk_string (string n units) = memcpy_twice n units >>= λ cs. ok (string n cs)
copy_value vk_blob (blob n octets) = memcpy n octets >>= λ cs. ok (blob n cs)
copy_value vk_image (image n octets) = memcpy n octets >>= λ cs. ok (image n cs)
copy_value vk_boolean v = copy_number vk_boolean v
copy_value vk_byte v = copy_number vk_byte v
copy_value vk_word v = copy_number vk_word v
copy_value vk_long v = copy_number vk_long v
copy_value vk_long8 v = copy_number vk_long8 v
copy_value vk_real v = copy_number vk_real v
copy_value vk_duration v = copy_number vk_duration v
copy_value vk_unknow v = ok null_pointer
copy_value vk_time v = ok null_pointer
copy_value vk_text v = ok null_pointer
copy_value _ _ = fault

-- _copy
unfoldable pub copy : FourdType → Value → Outcome Value
unfolding copy_value memcpy memcpy_twice vk_sizeof
copy t null_pointer = ok null_pointer
copy t v = copy_value t v

abbrev append_word : Bytes → ℕ → Bytes → Outcome Bytes
append_word data0 n bs = ok (data0 ++ (le_bytes 4 n ++ bs))

abbrev append_number : Bytes → FourdType → Value → Outcome Bytes
append_number data0 t (fixed bs) = memcpy (size_of (vk_sizeof t)) bs >>= λ cs. ok (data0 ++ cs)
append_number data0 t _ = fault

-- The switch of `_serialize`. For a timestamp all four copies start at `year`: the last one takes `year`, `mounth` and `day`.
-- A blob or an image is copied with two bytes for each byte of its length.
serialize_value : Bytes → FourdType → Value → Outcome Bytes
serialize_value data0 vk_timestamp (timestamp year mounth day milli) = ok (
    data0
    ++ (take 2 year ++ (get_or year 0 0 ∷ get_or year 0 0 ∷ (take 2 year ++ mounth ∷ day ∷ []))))
serialize_value data0 vk_float (float e s n digits) =
    memcpy (le_value n) digits >>= λ cs. ok (data0 ++ (e ++ (s ∷ (n ++ cs))))
serialize_value data0 vk_string (string n units) =
    memcpy_twice n units >>= append_word data0 ((2 ^ 32 - n) % 2 ^ 32)
serialize_value data0 vk_blob (blob n octets) = memcpy_twice n octets >>= append_word data0 n
serialize_value data0 vk_image (image n octets) = memcpy_twice n octets >>= append_word data0 n
serialize_value data0 vk_boolean v = append_number data0 vk_boolean v
serialize_value data0 vk_byte v = append_number data0 vk_byte v
serialize_value data0 vk_word v = append_number data0 vk_word v
serialize_value data0 vk_long v = append_number data0 vk_long v
serialize_value data0 vk_long8 v = append_number data0 vk_long8 v
serialize_value data0 vk_real v = append_number data0 vk_real v
serialize_value data0 vk_duration v = append_number data0 vk_duration v
serialize_value data0 vk_unknow v = ok data0
serialize_value data0 vk_time v = ok data0
serialize_value data0 vk_text v = ok data0
serialize_value data0 _ _ = fault

-- `*size` is an `int`.
unfoldable pub sized : Bytes → Outcome Bytes
sized bs = if leb (2 ^ 31) (length bs) then fault else ok bs

-- _serialize
unfoldable pub serialize : Bytes → FourdType → Value → Outcome Bytes
unfolding serialize_value memcpy memcpy_twice vk_sizeof sized
serialize data0 t null_pointer = ok data0
serialize data0 t v = serialize_value data0 t v >>= sized

-- The loop of `_query_param` that builds the data: a status code in front of each value.
unfoldable pub serialize_params : Bytes → List Element → Outcome Bytes
serialize_params data0 [] = ok data0
serialize_params data0 (p ∷ ps) = do
  data1 ←
      (if p.is_null then ok (data0 ++ b'0' ∷ []) else serialize (data0 ++ b'1' ∷ []) p.type p.value)
  serialize_params data1 ps
