-- ===== src/Receive/ElementLaws.antt =====
-- The reader takes back each element that the server sends.
use pdo_4d.Base.{
  ℕ, ◌+◌, ◌-◌, ◌*◌, ◌%◌, ◌^◌, ◌<◌, ◌≡◌, refl, arith, true, false, [], ◌∷◌, ◌++◌, Bytes, length,
  append_assoc, le_bytes, le_value, le_value-le_bytes_four, signed32, negsuc, lt→ltb, ◌==◌,
}
use pdo_4d.Connection.{Element, Value, null_pointer, fixed, timestamp, string, blob, image}
use pdo_4d.FourdType.{FourdType, vk_blob, vk_image, vk_string, vk_timestamp}
use pdo_4d.Proc.{Proc, read}
use pdo_4d.Proc.Yields.{Yields, Yields-ret, Yields-read}
use pdo_4d.Receive.Elements.{cell, read_value, read_cell, read_bytes, read_characters}
use pdo_4d.Receive.Wire.{IsNumber, IsSent, wire}

-- The status code `1`, and what stands behind it.
read_cell_value :
    (t : FourdType) (bs rest : Bytes) {e : Element}
    → Yields (read_value t) (bs ++ rest) (cell e) rest
    → Yields (read_cell t) (b'1' ∷ (bs ++ rest)) (cell e) rest
unfolding read_cell
read_cell_value t bs rest y = Yields-read 1 (b'1' ∷ []) (bs ++ rest) _ refl (omega arith) y

read_cell_null :
    (t : FourdType) (rest : Bytes)
    → Yields
        (read_cell t)
        (b'0' ∷ rest)
        (cell (record { type = t; is_null = true; value = null_pointer }))
        rest
unfolding read_cell
read_cell_null t rest = Yields-read 1 (b'0' ∷ []) rest _ refl (omega arith) (Yields-ret _ rest)

read_value_number :
    {t : FourdType} {n : ℕ} (bs rest : Bytes)
    → IsNumber t n
    → n ≡ length bs
    → Yields
        (read_value t)
        (bs ++ rest)
        (cell (record { type = t; is_null = false; value = fixed bs }))
        rest
unfolding read_value
read_value_number bs rest IsNumber.boolean e =
    Yields-read 2 bs rest _ e (omega arith) (Yields-ret _ rest)
read_value_number bs rest IsNumber.byte e =
    Yields-read 2 bs rest _ e (omega arith) (Yields-ret _ rest)
read_value_number bs rest IsNumber.word e =
    Yields-read 2 bs rest _ e (omega arith) (Yields-ret _ rest)
read_value_number bs rest IsNumber.long e =
    Yields-read 4 bs rest _ e (omega arith) (Yields-ret _ rest)
read_value_number bs rest IsNumber.long8 e =
    Yields-read 8 bs rest _ e (omega arith) (Yields-ret _ rest)
read_value_number bs rest IsNumber.real e =
    Yields-read 8 bs rest _ e (omega arith) (Yields-ret _ rest)
read_value_number bs rest IsNumber.duration e =
    Yields-read 8 bs rest _ e (omega arith) (Yields-ret _ rest)

-- A length in front of the data.
read_word :
    {A : Type 0} (n : ℕ) (data_bytes rest : Bytes) (k : ℕ → Proc A) {a : A}
    → n < 2 ^ 32
    → Yields (k n) (data_bytes ++ rest) a rest
    → Yields (read 4 (λ bs. k (le_value bs))) ((le_bytes 4 n ++ data_bytes) ++ rest) a rest
read_word n data_bytes rest k fits y = rw (append_assoc (le_bytes 4 n) data_bytes rest) (
    Yields-read 4 (le_bytes 4 n) (data_bytes ++ rest) (λ bs. k (le_value bs)) refl (omega arith)
      (rw (le_value-le_bytes_four n fits) y))

read_bytes_some :
    (t : FourdType) (v : ℕ → Bytes → Value) (n : ℕ) (octets rest : Bytes)
    → 0 < n
    → n < 2 ^ 31
    → n ≡ length octets
    → Yields
        (read_bytes t v n)
        (octets ++ rest)
        (cell (record { type = t; is_null = false; value = v n octets }))
        rest
unfolding read_bytes
read_bytes_some t v n octets rest pos fits e =
    let not_empty : (n == 0) ≡ false = ground arith in
    rw (not_empty, lt→ltb n (2 ^ 31) fits) (Yields-read n octets rest _ e pos (Yields-ret _ rest))

read_value_text :
    (n : ℕ) (units rest : Bytes)
    → n + 1 < 2 ^ 30 - 1
    → (n + 1) * 2 ≡ length units
    → Yields
        (read_value vk_string)
        ((le_bytes 4 ((2 ^ 32 - (n + 1)) % 2 ^ 32) ++ units) ++ rest)
        (cell (record { type = vk_string; is_null = false; value = string (n + 1) units }))
        rest
unfolding read_value read_characters
read_value_text n units rest fits e =
    let negated : signed32 ((2 ^ 32 - (n + 1)) % 2 ^ 32) ≡ negsuc n = ground arith in
    read_word ((2 ^ 32 - (n + 1)) % 2 ^ 32) units rest (λ w. read_characters (signed32 w))
      (omega arith)
      (rw negated (
        rw (lt→ltb (n + 1) (2 ^ 30 - 1) fits)
          (Yields-read ((n + 1) * 2) units rest _ e (omega arith) (Yields-ret _ rest))))

read_value_moment :
    (year milli rest : Bytes) (mounth day : ℕ)
    → 2 ≡ length year
    → 4 ≡ length milli
    → Yields
        (read_value vk_timestamp)
        ((year ++ (mounth ∷ day ∷ milli)) ++ rest)
        (cell (record {
          type = vk_timestamp;
          is_null = false;
          value = timestamp year mounth day milli;
        }))
        rest
unfolding read_value
read_value_moment year milli rest mounth day y m =
    let one : (d : ℕ) → d + 256 * 0 ≡ d = λ d. omega arith in
    rw (append_assoc year (mounth ∷ day ∷ milli) rest) (
      Yields-read 2 year _ _ y (omega arith) (
        Yields-read 1 (mounth ∷ []) (day ∷ (milli ++ rest)) _ refl (omega arith) (
          Yields-read 1 (day ∷ []) (milli ++ rest) _ refl (omega arith) (
            Yields-read 4 milli rest _ m (omega arith)
              (rw (one mounth, one day) (Yields-ret _ rest))))))

-- Every element that a response can carry, but for a FLOAT that is not null, a text of 2 ^ 30 - 1 units or more,
-- or binary data of 2 ^ 31 bytes or more, is read back, and nothing behind it is touched.
pub read_cell-wire :
    {e : Element} (rest : Bytes)
    → IsSent e
    → Yields (read_cell e.type) (wire e.value ++ rest) (cell e) rest
unfolding read_value
read_cell-wire rest (IsSent.null t) = read_cell_null t rest
read_cell-wire rest (IsSent.number {t} {n} bs k e) =
    read_cell_value t bs rest (read_value_number bs rest k e)
read_cell-wire rest (IsSent.moment year milli mounth day y m) =
    read_cell_value _ _ rest (read_value_moment year milli rest mounth day y m)
read_cell-wire rest IsSent.empty_text = read_cell_value _ (le_bytes 4 0 ++ []) rest (
    read_word 0 [] rest (λ w. read_characters (signed32 w)) (omega arith)
      (unfold read_characters in Yields-ret _ rest))
read_cell-wire rest (IsSent.text n units fits e) =
    read_cell_value _ (le_bytes 4 ((2 ^ 32 - (n + 1)) % 2 ^ 32) ++ units) rest
      (read_value_text n units rest fits e)
read_cell-wire rest IsSent.empty_blob = read_cell_value _ (le_bytes 4 0 ++ []) rest (
    read_word 0 [] rest (read_bytes vk_blob blob) (omega arith)
      (unfold read_bytes in Yields-ret _ rest))
read_cell-wire rest (IsSent.some_blob n octets pos fits e) =
    read_cell_value _ (le_bytes 4 n ++ octets) rest (
      read_word n octets rest (read_bytes vk_blob blob) (omega arith)
        (read_bytes_some vk_blob blob n octets rest pos fits e))
read_cell-wire rest IsSent.empty_image = read_cell_value _ (le_bytes 4 0 ++ []) rest (
    read_word 0 [] rest (read_bytes vk_image image) (omega arith)
      (unfold read_bytes in Yields-ret _ rest))
read_cell-wire rest (IsSent.some_image n octets pos fits e) =
    read_cell_value _ (le_bytes 4 n ++ octets) rest (
      read_word n octets rest (read_bytes vk_image image) (omega arith)
        (read_bytes_some vk_image image n octets rest pos fits e))
