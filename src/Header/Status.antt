-- ===== src/Header/Status.antt =====
-- `_get_status`: the first line of a response, and the fields of an error.
pub mod Line
use pdo_4d.Base.{
  ℕ, ◌-◌, ◌*◌, none, some, [], leb, ◌==◌, if◌then◌else◌, ℤ, pos, negsuc, Bytes, codes, equal,
  strstr, length, take, drop, atoi, Outcome, ok, fault, ◌>>=◌,
}
use pdo_4d.Connection.{fourd_ok, fourd_error, error_string_length}
use pdo_4d.Header.Field.{get, snprintf_s}

-- The result, and the three values written through the pointers.
pub record Status : Type 0 where
  pub ret : ℤ
  pub status : ℕ
  pub error_code : ℤ
  pub error_string : Bytes

-- `status[fin-loc]=0` writes one `int` behind `state->status`: from index 3 on it lies in
-- `error_string`, which from index 515 on it has passed.
abbrev stray_zero : ℕ → Bytes → Outcome Bytes
stray_zero n s = if leb 515 n then fault else ok (if leb 3 n then take (4 * (n - 3)) s else s)

-- An error: `Error-Code` is read from a buffer that is not initialised when the field is missing.
pub error_fields : Bytes → Bytes → Outcome Status
error_fields header old = do
  code ← get header (codes "Error-Code") 50
  description ← get header (codes "Error-Description") error_string_length
  elim code [
    | none ↦ fault
    | some c ↦ ok (record {
      ret = atoi c;
      status = fourd_error;
      error_code = atoi c;
      error_string = elim description [ none ↦ old | some d ↦ d ];
    })
  ]

-- The text of the status: `sStatus` keeps what it held, nothing, when the text is empty.
pub status_text : Bytes → Bytes → ℤ → Bytes → Bytes → Outcome Status
status_text header old code loc fin =
    let n = length loc - length fin in
    if n == 0
    then fault
    else if equal (snprintf_s 50 n loc) (codes "OK")
    then if leb 515 n
      then fault
      else ok (record { ret = pos 0; status = fourd_ok; error_code = pos 0; error_string = [] })
    else stray_zero n old >>= error_fields header

unfoldable pub get_status : Bytes → ℤ → Bytes → Outcome Status
unfolding status_text error_fields
get_status header code old =
    let unread =
      ok (record { ret = negsuc 0; status = fourd_error; error_code = code; error_string = old }) in
    elim (strstr header (codes " ")) [
      | none ↦ unread
      | some space ↦ elim (strstr (drop 1 space) (codes "\n")) [
        | none ↦ unread
        | some fin ↦ status_text header old code (drop 1 space) fin
      ]
    ]
