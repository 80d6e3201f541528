-- ===== src/Receive/Wire.antt =====
-- What a 4D server sends for an element, a row and a result set, described independently of the reader.
use pdo_4d.Base.{
  ℕ, ◌+◌, ◌-◌, ◌*◌, ◌%◌, ◌^◌, ◌<◌, ◌≡◌, Bool, true, false, List, [], ◌∷◌, ◌++◌, map, Bytes, length,
  le_bytes,
}
use pdo_4d.Connection.{Element, Value, null_pointer, fixed, timestamp, float, string, blob, image}
use pdo_4d.FourdType.{
  FourdType, vk_boolean, vk_byte, vk_word, vk_long, vk_long8, vk_real, vk_duration, vk_timestamp,
  vk_string, vk_blob, vk_image,
}

-- The types whose values are numbers of a fixed size.
pub data IsNumber : FourdType → ℕ → Type 0 where
  boolean : IsNumber vk_boolean 2
  byte : IsNumber vk_byte 2
  word : IsNumber vk_word 2
  long : IsNumber vk_long 4
  long8 : IsNumber vk_long8 8
  real : IsNumber vk_real 8
  duration : IsNumber vk_duration 8

-- The elements that a response can carry, without the numbers of variable length (FLOAT), whose digits the library misreads: null, a number, a
-- moment, a text in UTF-16, or binary data. An empty blob or image
-- arrives as null.
pub data IsSent : Element → Type 0 where
  null : (t : FourdType) → IsSent (record { type = t; is_null = true; value = null_pointer })
  number :
      {t : FourdType} {n : ℕ} (bs : Bytes)
      → IsNumber t n
      → n ≡ length bs
      → IsSent (record { type = t; is_null = false; value = fixed bs })
  moment :
      (year milli : Bytes) (mounth day : ℕ)
      → 2 ≡ length year
      → 4 ≡ length milli
      → IsSent
          (record { type = vk_timestamp; is_null = false; value = timestamp year mounth day milli })
  empty_text : IsSent (record { type = vk_string; is_null = false; value = string 0 [] })
  text :
      (n : ℕ) (units : Bytes)
      → n + 1 < 2 ^ 30 - 1
      → (n + 1) * 2 ≡ length units
      → IsSent (record { type = vk_string; is_null = false; value = string (n + 1) units })
  empty_blob : IsSent (record { type = vk_blob; is_null = true; value = blob 0 [] })
  some_blob :
      (n : ℕ) (octets : Bytes)
      → 0 < n
      → n < 2 ^ 31
      → n ≡ length octets
      → IsSent (record { type = vk_blob; is_null = false; value = blob n octets })
  empty_image : IsSent (record { type = vk_image; is_null = true; value = image 0 [] })
  some_image :
      (n : ℕ) (octets : Bytes)
      → 0 < n
      → n < 2 ^ 31
      → n ≡ length octets
      → IsSent (record { type = vk_image; is_null = false; value = image n octets })

-- The length of a text is sent negated.
abbrev pub wire : Value → Bytes
wire null_pointer = b'0' ∷ []
wire (fixed bs) = b'1' ∷ bs
wire (timestamp year mounth day milli) = b'1' ∷ (year ++ (mounth ∷ day ∷ milli))
wire (float exp sign n digits) = b'1' ∷ (exp ++ (sign ∷ (n ++ digits)))
wire (string n units) = b'1' ∷ (le_bytes 4 ((2 ^ 32 - n) % 2 ^ 32) ++ units)
wire (blob n octets) = b'1' ∷ (le_bytes 4 n ++ octets)
wire (image n octets) = b'1' ∷ (le_bytes 4 n ++ octets)

abbrev pub wire_elements : List Element → Bytes
wire_elements [] = []
wire_elements (e ∷ es) = wire e.value ++ wire_elements es

-- A row, and the number that the server gives it.
pub record Row : Type 0 where
  pub id : Bytes
  pub elements : List Element

-- The row id goes in front only of rows that can be updated.
abbrev pub wire_row : Bool → Row → Bytes
wire_row true r = b'1' ∷ (r.id ++ wire_elements r.elements)
wire_row false r = wire_elements r.elements

abbrev pub wire_rows : Bool → List Row → Bytes
wire_rows u [] = []
wire_rows u (r ∷ rs) = wire_row u r ++ wire_rows u rs

-- The elements of all rows, row by row.
abbrev pub table : List Row → List Element
table [] = []
table (r ∷ rs) = r.elements ++ table rs

abbrev pub AllSent : List Element → Type 0
AllSent [] = Unit
AllSent (e ∷ es) = IsSent e × AllSent es

-- Every row has an element of each column's type.
abbrev pub AreRows : List FourdType → List Row → Type 0
AreRows types [] = Unit
AreRows types (r ∷ rs) =
    ((4 ≡ length r.id) × (map (λ (e : Element). e.type) r.elements ≡ types) × AllSent r.elements)
    × AreRows types rs
