-- ===== src/Driver/Statement/Sent.antt =====
-- The elements that a server sends are such that `pdo_4d_stmt_get_col` can show them.
use pdo_4d.Base.{◌≡◌, inl, inr, refl, arith, Bool, true, false, IsBytes}
use pdo_4d.Connection.{Element, Value, fixed}
use pdo_4d.Driver.Statement.Column.{IsShowable}
use pdo_4d.FourdType.{FourdType, vk_byte, vk_word}
use pdo_4d.Receive.Wire.{IsSent, IsNumber}

-- Bytes below 256, in a number.
abbrev pub HasBytes : Value → Type 0
HasBytes (fixed bs) = IsBytes bs
HasBytes _ = Unit

-- The types of two bytes that are shown as numbers.
abbrev pub is_short : FourdType → Bool
is_short vk_byte = true
is_short vk_word = true
is_short _ = false

pub IsSent-IsShowable :
    (e : Element) → is_short e.type ≡ false → HasBytes e.value → IsSent e → IsShowable e
IsSent-IsShowable e s b (IsSent.null t) = inl refl
IsSent-IsShowable e s b (IsSent.number bs IsNumber.boolean n) = inr (refl, tt)
IsSent-IsShowable e s b (IsSent.number bs IsNumber.byte n) = absurd (cc)
IsSent-IsShowable e s b (IsSent.number bs IsNumber.word n) = absurd (cc)
IsSent-IsShowable e s b (IsSent.number bs IsNumber.long n) = inr (refl, (omega (arith, n), b))
IsSent-IsShowable e s b (IsSent.number bs IsNumber.long8 n) = inr (refl, (omega (arith, n), b))
IsSent-IsShowable e s b (IsSent.number bs IsNumber.real n) = inr (refl, tt)
IsSent-IsShowable e s b (IsSent.number bs IsNumber.duration n) = inr (refl, (omega (arith, n), b))
IsSent-IsShowable e s b (IsSent.moment year milli mounth day y m) = inr (refl, tt)
IsSent-IsShowable e s b IsSent.empty_text = inr (refl, refl)
IsSent-IsShowable e s b (IsSent.text n units h g) = inr (refl, g)
IsSent-IsShowable e s b IsSent.empty_blob = inl refl
IsSent-IsShowable e s b (IsSent.some_blob n octets p h g) = inr (refl, g)
IsSent-IsShowable e s b IsSent.empty_image = inl refl
IsSent-IsShowable e s b (IsSent.some_image n octets p h g) = inr (refl, g)
