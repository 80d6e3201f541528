-- ===== src/Driver/Statement/Whole.antt =====
-- lib4d_sql/fourd.c, `fourd_field_to_string`, and 4d_statement.c, `pdo_4d_stmt_get_col`: the text of a value that has all its bytes.
use pdo_4d.Base.{
  ℕ, ◌*◌, ◌^◌, ◌<◌, ◌≤◌, ◌≡◌, refl, ap, arith, IsBytes, ◌∷◌, ◌>>=◌, le→leb, take_all, true, false,
  some, [], length, leb, ◌==◌, if◌then◌else◌, take, le_value, signed32, snprintf, Bytes, codes, ok,
  fault,
}
use pdo_4d.Client.Field.{text, untouched, convert, format_timestamp, format_number}
use pdo_4d.Connection.{Value, fixed, timestamp, string, blob, image}
use pdo_4d.Driver.Statement.{is_binary, octets}
use pdo_4d.FourdType.{
  FourdType, vk_boolean, vk_long, vk_long8, vk_real, vk_timestamp, vk_duration, vk_string, vk_blob,
  vk_image,
}
use pdo_4d.Params.{memcpy}
use pdo_4d.Params.Laws.{memcpy_whole}
use pdo_4d.Session.Decimal.{length-format_d}
use pdo_4d.Session.Message.{format_d}

-- A value with all its bytes, of a type that the driver can show.
abbrev pub IsFull : FourdType → Value → Type 0
IsFull vk_boolean (fixed bs) = Unit
IsFull vk_long (fixed bs) = (4 ≤ length bs) × IsBytes bs
IsFull vk_long8 (fixed bs) = (4 ≤ length bs) × IsBytes bs
IsFull vk_duration (fixed bs) = (4 ≤ length bs) × IsBytes bs
IsFull vk_real (fixed bs) = Unit
IsFull vk_timestamp (timestamp y m d ms) = Unit
IsFull vk_string (string n cs) = n * 2 ≡ length cs
IsFull vk_blob (blob n bs) = n ≡ length bs
IsFull vk_image (image n bs) = n ≡ length bs
IsFull _ _ = ⊥

-- The text of a value, or its bytes.
abbrev pub contents : (Bytes → Bytes) → Value → FourdType → Bytes
contents format_lf (fixed bs) vk_boolean = if le_value bs == 0 then codes "1" else codes "0"
contents format_lf (fixed bs) vk_real = snprintf 64 (format_lf bs)
contents format_lf (fixed bs) _ = format_d (signed32 (le_value (take 4 bs)))
contents format_lf (timestamp y m d ms) _ = format_timestamp y m d ms
contents format_lf (string n cs) _ = cs
contents format_lf (blob n bs) _ = bs
contents format_lf (image n bs) _ = bs
contents format_lf _ _ = []

four_bytes : (bs : Bytes) → 4 ≤ length bs → IsBytes bs → le_value (take 4 bs) < 2 ^ 32
four_bytes [] h b = absurd (omega arith)
four_bytes (x ∷ []) h b = absurd (omega arith)
four_bytes (x ∷ (y ∷ [])) h b = absurd (omega arith)
four_bytes (x ∷ (y ∷ (z ∷ []))) h b = absurd (omega arith)
four_bytes (x ∷ (y ∷ (z ∷ (w ∷ bs)))) h (bx, (by, (bz, (bw, b)))) = omega (arith, bx, by, bz, bw)

format_number-full :
    (bs : Bytes)
    → 4 ≤ length bs
    → IsBytes bs
    → format_number (fixed bs) ≡ ok (text (format_d (signed32 (le_value (take 4 bs)))), 1)
unfolding format_number memcpy
format_number-full bs h b =
    let room : leb 4 (length bs) ≡ true = le→leb 4 (length bs) h in
    let short : take 21 (format_d (signed32 (le_value (take 4 bs))))
        ≡ format_d (signed32 (le_value (take 4 bs))) =
      take_all 21 (format_d (signed32 (le_value (take 4 bs))))
        (omega (arith, length-format_d (le_value (take 4 bs)) (four_bytes bs h b))) in
    rw (room, memcpy) (ap (λ s. ok (text s, 1)) short)

pub convert-full :
    (format_lf : Bytes → Bytes) (t : FourdType) (v : Value)
    → is_binary t ≡ false
    → IsFull t v
    → convert format_lf t v ≡ ok (text (contents format_lf v t), 1)
unfolding convert
convert-full format_lf vk_boolean (fixed bs) b f = refl
convert-full format_lf vk_long (fixed bs) b (h, o) = format_number-full bs h o
convert-full format_lf vk_long8 (fixed bs) b (h, o) = format_number-full bs h o
convert-full format_lf vk_duration (fixed bs) b (h, o) = format_number-full bs h o
convert-full format_lf vk_real (fixed bs) b f = refl
convert-full format_lf vk_timestamp (timestamp y m d ms) b f = refl
convert-full format_lf vk_string (string n cs) b f =
    ap (λ m. m >>= λ s. ok (text s, 1)) (memcpy_whole (n * 2) cs f)
convert-full format_lf t v b f = ground arith

octets-full :
    (n : ℕ) (bs : Bytes)
    → n ≡ length bs
    → (if leb n (length bs) then ok (some (take n bs)) else fault) ≡ ok (some bs)
octets-full n bs f =
    rw (le→leb n (length bs) (omega (arith, f)))
      (ap (λ cs. ok (some cs)) (take_all n bs (omega (arith, f))))

pub binary-full :
    (format_lf : Bytes → Bytes) (t : FourdType) (v : Value)
    → is_binary t ≡ true
    → IsFull t v
    → (convert format_lf t v ≡ ok (untouched, 0)) × (octets v ≡ ok (some (contents format_lf v t)))
unfolding convert
binary-full format_lf vk_blob (blob n bs) b f = (refl, octets-full n bs f)
binary-full format_lf vk_image (image n bs) b f = (refl, octets-full n bs f)
binary-full format_lf t v b f = ground arith
