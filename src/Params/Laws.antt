-- ===== src/Params/Laws.antt =====
-- What is serialised is what a server sends, and where it is not.
use pdo_4d.Base.{
  ℕ, ◌+◌, subst, lt→leb, length-append, Bool-cases, inl, inr, ◌-◌, ◌*◌, ◌%◌, ◌^◌, ◌<◌, ◌≡◌, refl,
  sym, ap, ◌∙◌, arith, true, false, List, [], ◌∷◌, ◌++◌, leb, le→leb, if◌then◌else◌, Bytes, length,
  take_all, le_bytes, append_assoc, append-nil, ok, fault,
}
use pdo_4d.Connection.{Element, null_pointer, fixed, string, blob, image}
use pdo_4d.FourdType.{FourdType, vk_string, vk_blob, vk_image}
use pdo_4d.Params.{memcpy, memcpy_twice, sized, copy, serialize, serialize_params}
use pdo_4d.Receive.Wire.{IsNumber, wire, wire_elements}

-- A copy of the whole array.
pub memcpy_whole : (n : ℕ) (bs : Bytes) → n ≡ length bs → memcpy n bs ≡ ok bs
unfolding memcpy
memcpy_whole n bs e = rw (le→leb n (length bs) (omega arith)) (ap ok (take_all n bs (omega arith)))

-- The parameters that the driver binds and that are sent as they are: null, numbers and texts.
pub data IsParam : Element → Type 0 where
  null : (t : FourdType) → IsParam (record { type = t; is_null = true; value = null_pointer })
  number :
      {t : FourdType} {n : ℕ} (bs : Bytes)
      → IsNumber t n
      → n ≡ length bs
      → IsParam (record { type = t; is_null = false; value = fixed bs })
  text :
      (n : ℕ) (units : Bytes)
      → n * 2 ≡ length units
      → IsParam (record { type = vk_string; is_null = false; value = string n units })

abbrev pub AreParams : List Element → Type 0
AreParams [] = Unit
AreParams (e ∷ es) = IsParam e × AreParams es

sized_small : (bs : Bytes) → length bs < 2 ^ 31 → sized bs ≡ ok bs
unfolding sized
sized_small bs h = rw (lt→leb (length bs) (2 ^ 31) h) refl

pub memcpy_twice_whole :
    (n : ℕ) (bs : Bytes) → n < 2 ^ 30 → n * 2 ≡ length bs → memcpy_twice n bs ≡ ok bs
unfolding memcpy_twice
memcpy_twice_whole n bs h e = rw (lt→leb n (2 ^ 30) h) (memcpy_whole (n * 2) bs e)

serialize_number :
    {t : FourdType} {n : ℕ} (data0 bs : Bytes)
    → IsNumber t n
    → n ≡ length bs
    → length (data0 ++ bs) < 2 ^ 31
    → serialize data0 t (fixed bs) ≡ ok (data0 ++ bs)
unfolding serialize
serialize_number data0 bs IsNumber.boolean e h =
    rw (memcpy_whole 2 bs e) (sized_small (data0 ++ bs) h)
serialize_number data0 bs IsNumber.byte e h = rw (memcpy_whole 2 bs e) (sized_small (data0 ++ bs) h)
serialize_number data0 bs IsNumber.word e h = rw (memcpy_whole 2 bs e) (sized_small (data0 ++ bs) h)
serialize_number data0 bs IsNumber.long e h = rw (memcpy_whole 4 bs e) (sized_small (data0 ++ bs) h)
serialize_number data0 bs IsNumber.long8 e h =
    rw (memcpy_whole 8 bs e) (sized_small (data0 ++ bs) h)
serialize_number data0 bs IsNumber.real e h = rw (memcpy_whole 8 bs e) (sized_small (data0 ++ bs) h)
serialize_number data0 bs IsNumber.duration e h =
    rw (memcpy_whole 8 bs e) (sized_small (data0 ++ bs) h)

serialize_text :
    (data0 : Bytes) (n : ℕ) (units : Bytes)
    → n * 2 ≡ length units
    → length (data0 ++ (le_bytes 4 ((2 ^ 32 - n) % 2 ^ 32) ++ units)) < 2 ^ 31
    → serialize data0 vk_string (string n units)
      ≡ ok (data0 ++ (le_bytes 4 ((2 ^ 32 - n) % 2 ^ 32) ++ units))
unfolding serialize
serialize_text data0 n units e h =
    let all : Bytes = le_bytes 4 ((2 ^ 32 - n) % 2 ^ 32) ++ units in
    let short : n < 2 ^ 30 = omega (
      arith,
      h,
      e,
      length-append data0 all,
      length-append (le_bytes 4 ((2 ^ 32 - n) % 2 ^ 32)) units,
    ) in
    rw (memcpy_twice_whole n units short e) (sized_small (data0 ++ all) h)

-- One parameter with its status code.
serialize_param :
    {p : Element} (data0 : Bytes)
    → IsParam p
    → length (data0 ++ wire p.value) < 2 ^ 31
    → (if p.is_null then ok (data0 ++ b'0' ∷ []) else serialize (data0 ++ b'1' ∷ []) p.type p.value)
      ≡ ok (data0 ++ wire p.value)
serialize_param data0 (IsParam.null t) h = refl
serialize_param data0 (IsParam.number {t} {n} bs k e) h =
    let same = append_assoc data0 (b'1' ∷ []) bs in
    serialize_number (data0 ++ b'1' ∷ []) bs k e (subst (λ x. length x < 2 ^ 31) (sym same) h)
    ∙ ap ok same
serialize_param data0 (IsParam.text n units e) h =
    let same = append_assoc data0 (b'1' ∷ []) (le_bytes 4 ((2 ^ 32 - n) % 2 ^ 32) ++ units) in
    serialize_text (data0 ++ b'1' ∷ []) n units e (subst (λ x. length x < 2 ^ 31) (sym same) h)
    ∙ ap ok same

pub serialize_params-wire_elements :
    (ps : List Element) (data0 : Bytes)
    → AreParams ps
    → length data0 + length (wire_elements ps) < 2 ^ 31
    → serialize_params data0 ps ≡ ok (data0 ++ wire_elements ps)
unfolding serialize_params
serialize_params-wire_elements [] data0 h small = ap ok (sym (append-nil data0))
serialize_params-wire_elements (p ∷ ps) data0 h small =
    let first = length-append data0 (wire p.value) in
    let all = length-append (wire p.value) (wire_elements ps) in
    rw (serialize_param data0 h.0 (omega (arith, first, all, small))) (
      serialize_params-wire_elements ps (data0 ++ wire p.value) h.1
        (omega (arith, first, all, small))
      ∙ ap ok (append_assoc data0 (wire p.value) (wire_elements ps)))

memcpy_short : (n : ℕ) (bs : Bytes) → length bs < n → memcpy n bs ≡ fault
unfolding memcpy
memcpy_short n bs h = let short : leb n (length bs) ≡ false = ground arith in rw short

memcpy_twice_short : (n : ℕ) (bs : Bytes) → length bs < n * 2 → memcpy_twice n bs ≡ fault
unfolding memcpy_twice
memcpy_twice_short n bs h = elim (Bool-cases (leb (2 ^ 30) n)) [
  | inl e ↦ rw e
  | inr e ↦ rw e (memcpy_short (n * 2) bs h)
]

-- A blob or an image that holds its `length` bytes is bound without loss, but serialising it, unless it is empty, reads behind the end
-- of the bound copy.
pub serialize_blob_overread :
    (data0 : Bytes) (n : ℕ) (octets : Bytes)
    → 0 < n
    → n ≡ length octets
    → (copy vk_blob (blob n octets) ≡ ok (blob n octets))
      × (copy vk_image (image n octets) ≡ ok (image n octets))
      × (serialize data0 vk_blob (blob n octets) ≡ fault)
      × (serialize data0 vk_image (image n octets) ≡ fault)
unfolding copy serialize
serialize_blob_overread data0 n octets positive e =
    let whole = memcpy_whole n octets e in
    let short = memcpy_twice_short n octets (omega arith) in
    (rw whole, rw whole, rw short, rw short)
