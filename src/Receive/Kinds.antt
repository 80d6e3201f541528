-- ===== src/Receive/Kinds.antt =====
-- The values that a result holds are of the kinds that the types of its elements say.
pub mod Data
use pdo_4d.Base.{
  ℕ, ◌+◌, ◌^◌, ◌≡◌, refl, Bool, true, false, ltb, ◌==◌, if◌then◌else◌, ℤ, pos, negsuc, [], Bytes,
  ◌-◌, le_value, signed32,
}
use pdo_4d.Connection.{Element, Value, null_pointer, fixed, timestamp, float, string, blob, image}
use pdo_4d.FourdType.{
  FourdType, vk_unknow, vk_boolean, vk_byte, vk_word, vk_long, vk_long8, vk_real, vk_float, vk_time,
  vk_timestamp, vk_duration, vk_text, vk_string, vk_blob, vk_image,
}
use pdo_4d.Proc.Always.{Always, Always-if}
use pdo_4d.Receive.Elements.{Cell, cell, broken, read_characters, read_bytes, read_value, read_cell}

-- What stands behind a pointer that is cast by the type of its element.
pub data Kind : Type 0 where
  number moment digits characters octets picture nothing : Kind

abbrev pub kind_of : FourdType → Kind
kind_of vk_boolean = number
kind_of vk_byte = number
kind_of vk_word = number
kind_of vk_long = number
kind_of vk_long8 = number
kind_of vk_real = number
kind_of vk_duration = number
kind_of vk_timestamp = moment
kind_of vk_float = digits
kind_of vk_string = characters
kind_of vk_blob = octets
kind_of vk_image = picture
kind_of vk_unknow = nothing
kind_of vk_time = nothing
kind_of vk_text = nothing

-- A null pointer is of every kind.
abbrev pub has_kind : Kind → Value → Bool
has_kind k null_pointer = true
has_kind number (fixed bs) = true
has_kind moment (timestamp y m d ms) = true
has_kind digits (float e s n ds) = true
has_kind characters (string n cs) = true
has_kind octets (blob n bs) = true
has_kind picture (image n bs) = true
has_kind _ _ = false

abbrev pub IsKind : Element → Type 0
IsKind e = has_kind (kind_of e.type) e.value ≡ true

-- An element of the column's type, of its kind.
abbrev pub IsTyped : FourdType → Cell → Type 0
IsTyped t (cell e) = (e.type ≡ t) × IsKind e
IsTyped t (broken code) = Unit

read_characters-IsTyped : (n : ℤ) → Always (IsTyped vk_string) (read_characters n)
unfolding read_characters
read_characters-IsTyped (pos n) = Always-if (IsTyped vk_string) (n == 0) _ _ (refl, refl) tt
read_characters-IsTyped (negsuc n) =
    Always-if (IsTyped vk_string) (ltb (n + 1) (2 ^ 30 - 1)) _ _ (λ bs. (refl, refl)) tt

read_bytes-IsTyped :
    (t : FourdType) (v : ℕ → Bytes → Value) (n : ℕ)
    → ((k : ℕ) (bs : Bytes) → has_kind (kind_of t) (v k bs) ≡ true)
    → Always (IsTyped t) (read_bytes t v n)
unfolding read_bytes
read_bytes-IsTyped t v n fits =
    Always-if (IsTyped t) (n == 0) _ _ (refl, fits 0 [])
      (Always-if (IsTyped t) (ltb n (2 ^ 31)) _ _ (λ bs. (refl, fits n bs)) (refl, fits n []))

read_value-IsTyped : (t : FourdType) → Always (IsTyped t) (read_value t)
unfolding read_value
read_value-IsTyped vk_boolean = λ bs. (refl, refl)
read_value-IsTyped vk_byte = λ bs. (refl, refl)
read_value-IsTyped vk_word = λ bs. (refl, refl)
read_value-IsTyped vk_long = λ bs. (refl, refl)
read_value-IsTyped vk_long8 = λ bs. (refl, refl)
read_value-IsTyped vk_real = λ bs. (refl, refl)
read_value-IsTyped vk_duration = λ bs. (refl, refl)
read_value-IsTyped vk_timestamp = λ year mounth day milli. (refl, refl)
read_value-IsTyped vk_float = λ e s n. (refl, refl)
read_value-IsTyped vk_string = λ bs. read_characters-IsTyped (signed32 (le_value bs))
read_value-IsTyped vk_image = λ bs. read_bytes-IsTyped vk_image image (le_value bs) (λ k cs. refl)
read_value-IsTyped vk_blob = λ bs. read_bytes-IsTyped vk_blob blob (le_value bs) (λ k cs. refl)
read_value-IsTyped vk_unknow = (refl, refl)
read_value-IsTyped vk_time = (refl, refl)
read_value-IsTyped vk_text = (refl, refl)

pub read_cell-IsTyped : (t : FourdType) → Always (IsTyped t) (read_cell t)
unfolding read_cell
read_cell-IsTyped t = λ code.
    Always-if (IsTyped t) (le_value code == b'2') _ _ (λ bs. tt)
      (Always-if (IsTyped t) (le_value code == b'0') _ _ (refl, refl)
        (Always-if (IsTyped t) (le_value code == b'1') _ _ (read_value-IsTyped t) (refl, refl)))
