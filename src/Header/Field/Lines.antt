-- ===== src/Header/Field/Lines.antt =====
-- What `get` finds in a header of lines `name:value`.
use pdo_4d.Base.{
  ℕ, ◌+◌, ◌-◌, ◌<◌, ◌≤◌, ◌≡◌, refl, ◌∙◌, le→leb, IsBytes, arith, true, false, none, some, [], ◌∷◌,
  ◌++◌, append_assoc, leb, Bytes, codes, cstr, strstr, strstr-append, NotBefore, NotBefore-Absent,
  Absent, length, length-append, min, take-append, drop-append, ok, fault,
}
use pdo_4d.Base64.{base64_encode, base64_decode}
use pdo_4d.Base64.RoundTrip.{base64_decode_ex-some}
use pdo_4d.Header.Field.{get, copy_value, decode_value, snprintf_s}

-- Finding the three marks: the section's name, the colon, and the end of the line.
get_line :
    (before section gap value rest : Bytes) (max_length : ℕ)
    → NotBefore section before (section ++ (gap ++ (b':' ∷ (value ++ (b'\n' ∷ rest)))))
    → Absent b':' gap
    → Absent b'\n' value
    → get (before ++ (section ++ (gap ++ (b':' ∷ (value ++ (b'\n' ∷ rest)))))) section max_length
      ≡ copy_value section max_length (value ++ (b'\n' ∷ rest)) (b'\n' ∷ rest)
unfolding get
get_line before section gap value rest max_length nb ng nv =
    rw
      (
        strstr-append before section (gap ++ (b':' ∷ (value ++ (b'\n' ∷ rest)))) nb,
        drop-append section (gap ++ (b':' ∷ (value ++ (b'\n' ∷ rest)))) (length section) refl,
        strstr-append gap (b':' ∷ []) (value ++ (b'\n' ∷ rest)) (NotBefore-Absent b':' gap _ ng),
        strstr-append value (b'\n' ∷ []) rest (NotBefore-Absent b'\n' value _ nv),
        get,
      )
      refl

abbrev pub IsPlain : Bytes → Type 0
IsPlain section = strstr section (codes "-Base64") ≡ none

decode_value_plain :
    (section value : Bytes) → IsPlain section → decode_value section value ≡ ok value
unfolding decode_value
decode_value_plain section value plain = rw (plain, decode_value)

-- `fin - loc` characters and the NUL: the last character is left out.
pub snprintf_s_last :
    (value rest : Bytes) (c max_length : ℕ)
    → length value + 1 < max_length
    → snprintf_s max_length (length value + 1) (value ++ (c ∷ rest)) ≡ value
snprintf_s_last value rest c max_length fits =
    let n : min max_length (length value + 1) - 1 ≡ length value = omega arith in
    rw n (take-append value (c ∷ rest) (length value) refl)

copy_value_last :
    (section value rest : Bytes) (c max_length : ℕ)
    → length value + 1 < max_length
    → copy_value section max_length (value ++ (c ∷ b'\n' ∷ rest)) (b'\n' ∷ rest)
      ≡ elim (decode_value section value) [ ok v ↦ ok (some v) | fault ↦ fault ]
unfolding copy_value
copy_value_last section value rest c max_length fits =
    let n : length (value ++ (c ∷ b'\n' ∷ rest)) - length (b'\n' ∷ rest) ≡ length value + 1 =
      omega (arith, length-append {0} value (c ∷ b'\n' ∷ rest)) in
    let room : leb max_length (length value + 1) ≡ false = ground arith in
    rw (n, room, snprintf_s_last value (b'\n' ∷ rest) c max_length fits)

cstr_whole : (s : Bytes) → Absent 0 s → cstr s ≡ s
cstr_whole [] h = refl
cstr_whole (c ∷ cs) h = ground (arith, h.0, cstr_whole cs h.1)

decode-encode :
    (text : Bytes) {value : Bytes}
    → IsBytes text
    → base64_encode text ≡ some value
    → base64_decode value ≡ some text
unfolding base64_decode
decode-encode text bytes e = base64_decode_ex-some false text bytes e

-- A header whose first occurrence of `section` opens the line `section gap:text\n`.
pub record HasLine (header section : Bytes) (text : Bytes) : Type 0 where
  pub before : Bytes
  pub gap : Bytes
  pub rest : Bytes
  pub splits : header ≡ before ++ (section ++ (gap ++ (b':' ∷ (text ++ (b'\n' ∷ rest)))))
  pub first : NotBefore section before (section ++ (gap ++ (b':' ∷ (text ++ (b'\n' ∷ rest)))))
  pub no_colon : Absent b':' gap
  pub no_newline : Absent b'\n' text

get-HasLine :
    {header section : Bytes} (value : Bytes) (c max_length : ℕ)
    → HasLine header section (value ++ c ∷ [])
    → length value + 1 < max_length
    → get header section max_length
      ≡ elim (decode_value section value) [ ok v ↦ ok (some v) | fault ↦ fault ]
get-HasLine {header} {section} value c max_length l fits =
    rw
      (
        l.splits,
        get_line l.before section l.gap (value ++ c ∷ []) l.rest max_length l.first l.no_colon
            l.no_newline,
        append_assoc value (c ∷ []) (b'\n' ∷ l.rest),
      )
      (copy_value_last section value l.rest c max_length fits)

-- On a line `section:value` closed by one more character (the carriage return of CRLF, or with a bare
-- line feed the value's own last character) and a line feed, `get` finds exactly `value`, provided that the buffer has room.
pub get_field :
    {header section : Bytes} (value : Bytes) (c max_length : ℕ)
    → IsPlain section
    → HasLine header section (value ++ c ∷ [])
    → length value + 1 < max_length
    → get header section max_length ≡ ok (some value)
get_field {section = section} value c max_length plain l fits =
    get-HasLine value c max_length l fits ∙ rw (decode_value_plain section value plain)

-- Under a `-Base64` section whose line holds the encoding of a byte string without NUL, `get` finds that byte string.
pub get_base64_field :
    {header section : Bytes} (text value : Bytes) (mark : Bytes) (c max_length : ℕ)
    → strstr section (codes "-Base64") ≡ some mark
    → IsBytes text
    → Absent 0 text
    → base64_encode text ≡ some value
    → HasLine header section (value ++ c ∷ [])
    → length value + 1 < max_length
    → get header section max_length ≡ ok (some text)
unfolding decode_value
get_base64_field {section = section} text value mark c max_length m bytes no_nul e l fits =
    get-HasLine value c max_length l fits ∙ rw decoded
  where
    decoded : decode_value section value ≡ ok text
    decoded = rw (m, decode_value) (rw (decode-encode text bytes e) (rw (cstr_whole text no_nul)))

-- When the text between the colon and the line feed has `max_length` bytes or more, `get` writes behind the end of the buffer.
pub get_overflow :
    {header section : Bytes} (text : Bytes) (max_length : ℕ)
    → HasLine header section text
    → max_length ≤ length text
    → get header section max_length ≡ fault
get_overflow {header} {section} text max_length l h =
    rw
      (
        l.splits,
        get_line l.before section l.gap text l.rest max_length l.first l.no_colon l.no_newline,
      )
      (unfold copy_value in rw (n, too_long))
  where
    n : length (text ++ (b'\n' ∷ l.rest)) - length (b'\n' ∷ l.rest) ≡ length text
    n = omega (arith, length-append {0} text (b'\n' ∷ l.rest))

    too_long : leb max_length (length text) ≡ true
    too_long = le→leb max_length (length text) h
