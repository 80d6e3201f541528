-- ===== src/Client/Statement/Bindable.antt =====
-- The values that can be bound without loss, and the elements that they become.
use pdo_4d.Base.{ℕ, ◌*◌, ◌^◌, ◌<◌, ◌≡◌, refl, Bool, true, false, List, [], ◌∷◌, Bytes, length, ok}
use pdo_4d.Client.Statement.{param_element}
use pdo_4d.Connection.{Element, Value, null_pointer, fixed, timestamp, string, blob, image}
use pdo_4d.FourdType.{FourdType, vk_timestamp, vk_string, vk_blob, vk_image}
use pdo_4d.Params.{copy}
use pdo_4d.Params.Laws.{memcpy_whole, memcpy_twice_whole}
use pdo_4d.Receive.Wire.{IsNumber}

-- A null pointer, or a value that has all its bytes.
pub data Bindable : FourdType → Value → Type 0 where
  missing : (t : FourdType) → Bindable t null_pointer
  number :
      {t : FourdType} {n : ℕ} (bs : Bytes) → IsNumber t n → n ≡ length bs → Bindable t (fixed bs)
  moment :
      (year milli : Bytes) (mounth day : ℕ)
      → Bindable vk_timestamp (timestamp year mounth day milli)
  text :
      (n : ℕ) (units : Bytes)
      → n < 2 ^ 30
      → n * 2 ≡ length units
      → Bindable vk_string (string n units)
  octets : (n : ℕ) (bs : Bytes) → n ≡ length bs → Bindable vk_blob (blob n bs)
  picture : (n : ℕ) (bs : Bytes) → n ≡ length bs → Bindable vk_image (image n bs)

abbrev pub AreBindable : List (FourdType × Value) → Type 0
AreBindable [] = Unit
AreBindable (p ∷ ps) = Bindable p.0 p.1 × AreBindable ps

abbrev pub is_missing : Value → Bool
is_missing null_pointer = true
is_missing _ = false

-- The value itself, under its type.
abbrev pub element_of : FourdType → Value → Element
element_of t v = record { type = t; is_null = is_missing v; value = v }

abbrev pub elements_of : List (FourdType × Value) → List Element
elements_of [] = []
elements_of (p ∷ ps) = element_of p.0 p.1 ∷ elements_of ps

copy_number :
    {t : FourdType} {n : ℕ} (bs : Bytes)
    → IsNumber t n
    → n ≡ length bs
    → param_element t (fixed bs) ≡ ok (element_of t (fixed bs))
unfolding param_element copy
copy_number bs IsNumber.boolean e = rw (memcpy_whole 2 bs e)
copy_number bs IsNumber.byte e = rw (memcpy_whole 2 bs e)
copy_number bs IsNumber.word e = rw (memcpy_whole 2 bs e)
copy_number bs IsNumber.long e = rw (memcpy_whole 4 bs e)
copy_number bs IsNumber.long8 e = rw (memcpy_whole 8 bs e)
copy_number bs IsNumber.real e = rw (memcpy_whole 8 bs e)
copy_number bs IsNumber.duration e = rw (memcpy_whole 8 bs e)

pub param_element-Bindable :
    {t : FourdType} {v : Value} → Bindable t v → param_element t v ≡ ok (element_of t v)
unfolding param_element copy
param_element-Bindable (Bindable.missing t) = refl
param_element-Bindable (Bindable.number bs k e) = copy_number bs k e
param_element-Bindable (Bindable.moment year milli mounth day) = refl
param_element-Bindable (Bindable.text n units h e) = rw (memcpy_twice_whole n units h e)
param_element-Bindable (Bindable.octets n bs e) = rw (memcpy_whole n bs e)
param_element-Bindable (Bindable.picture n bs e) = rw (memcpy_whole n bs e)
