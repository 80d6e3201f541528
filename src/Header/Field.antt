-- ===== src/Header/Field.antt =====
-- `get`: one field of a header, as the build for other systems than Windows reads it.
pub mod Lines
use pdo_4d.Base.{
  ℕ, ◌-◌, Bool, Option, none, some, List, [], ◌∷◌, leb, min, if◌then◌else◌, Bytes, codes, cstr,
  strstr, snprintf, length, drop, Outcome, ok, fault,
}
use pdo_4d.Base64.{base64_decode}

-- `_snprintf_s` of the compatibility layer: the smaller of the two sizes bounds the output,
-- the closing NUL included.
abbrev pub snprintf_s : ℕ → ℕ → Bytes → Bytes
snprintf_s size count s = snprintf (min size count) s

-- A value under a section named for Base64 is decoded in place; the C string ends at the first NUL.
-- A null result of the decoder is dereferenced.
pub decode_value : Bytes → Bytes → Outcome Bytes
decode_value section value = elim (strstr section (codes "-Base64")) [
  | none ↦ ok value
  | some _ ↦ elim (base64_decode value) [ none ↦ fault | some d ↦ ok (cstr d) ]
]

-- The value between `loc` and `fin`; `valeur[fin-loc]=0` must lie within the buffer.
pub copy_value : Bytes → ℕ → Bytes → Bytes → Outcome (Option Bytes)
copy_value section max_length loc fin =
    let n = length loc - length fin in
    if leb max_length n then fault else elim (decode_value section (snprintf_s max_length n loc)) [
      | ok v ↦ ok (some v)
      | fault ↦ fault
    ]

-- `ok none` is the result -1, and `ok (some v)` the result 0 with `v` in the buffer.
unfoldable pub get : Bytes → Bytes → ℕ → Outcome (Option Bytes)
unfolding copy_value decode_value
get msg section max_length = elim (strstr msg section) [
  | none ↦ ok none
  | some loc ↦ elim (strstr (drop (length section) loc) (codes ":")) [
    | none ↦ ok none
    | some colon ↦
        let value = drop 1 colon in
        elim (strstr value (codes "\n")) [
          | none ↦ ok none
          | some fin ↦ copy_value section max_length value fin
        ]
  ]
]
