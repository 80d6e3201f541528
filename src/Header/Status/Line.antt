-- ===== src/Header/Status/Line.antt =====
-- What `_get_status` makes of the first line of a response.
use pdo_4d.Base.{
  ℕ, ◌+◌, ◌-◌, ◌<◌, ◌≡◌, refl, ◌∙◌, arith, false, some, [], ◌∷◌, ◌++◌, append_assoc, leb, lt→leb,
  ◌==◌, if◌then◌else◌, ℤ, pos, Bytes, codes, equal, strstr, strstr-append, NotBefore-Absent, Absent,
  length, length-append, atoi, ok, ◌>>=◌,
}
use pdo_4d.Connection.{fourd_ok, fourd_error, error_string_length}
use pdo_4d.Header.Field.{get, snprintf_s}
use pdo_4d.Header.Field.Lines.{snprintf_s_last}
use pdo_4d.Header.Status.{stray_zero, error_fields, status_text, get_status}

-- The first line is `id text`, closed by one more character and a line feed, and is not long.
pub record HasStatus (header text : Bytes) : Type 0 where
  pub id : Bytes
  pub c : ℕ
  pub rest : Bytes
  pub splits : header ≡ id ++ (b' ' ∷ ((text ++ (c ∷ [])) ++ (b'\n' ∷ rest)))
  pub no_space : Absent b' ' id
  pub no_newline : Absent b'\n' (text ++ (c ∷ []))
  pub short : length text + 1 < 50

-- A positive number is not 0.
not_zero : (n : ℕ) → (n + 1 == 0) ≡ false
not_zero n = ground arith

found :
    (header text : Bytes) (code : ℤ) (old : Bytes) (s : HasStatus header text)
    → get_status header code old
      ≡ status_text header old code ((text ++ (s.c ∷ [])) ++ (b'\n' ∷ s.rest)) (b'\n' ∷ s.rest)
unfolding get_status
found header text code old s =
    let loc : Bytes = (text ++ (s.c ∷ [])) ++ (b'\n' ∷ s.rest) in
    let space : strstr header (codes " ") ≡ some (b' ' ∷ loc) =
      rw s.splits
        (strstr-append s.id (b' ' ∷ []) loc (NotBefore-Absent b' ' s.id (b' ' ∷ loc) s.no_space)) in
    let line : strstr loc (codes "\n") ≡ some (b'\n' ∷ s.rest) =
      strstr-append (text ++ (s.c ∷ [])) (b'\n' ∷ []) s.rest
        (NotBefore-Absent b'\n' (text ++ (s.c ∷ [])) (b'\n' ∷ s.rest) s.no_newline) in
    rw (space, line, get_status) refl

read_text :
    (header text old : Bytes) (code : ℤ) (c : ℕ) (rest : Bytes)
    → length text + 1 < 50
    → status_text header old code ((text ++ (c ∷ [])) ++ (b'\n' ∷ rest)) (b'\n' ∷ rest) ≡ (
        if equal text (codes "OK")
        then ok (record { ret = pos 0; status = fourd_ok; error_code = pos 0; error_string = [] })
        else stray_zero (length text + 1) old >>= error_fields header)
unfolding status_text
read_text header text old code c rest short =
    let n : length ((text ++ (c ∷ [])) ++ (b'\n' ∷ rest)) - length (b'\n' ∷ rest)
        ≡ length text + 1 =
      omega (
        arith,
        length-append {0} (text ++ (c ∷ [])) (b'\n' ∷ rest),
        length-append {0} text (c ∷ []),
      ) in
    let copied : snprintf_s 50 (length text + 1) ((text ++ (c ∷ [])) ++ (b'\n' ∷ rest)) ≡ text =
      rw (append_assoc text (c ∷ []) (b'\n' ∷ rest))
        (snprintf_s_last text (b'\n' ∷ rest) c 50 short) in
    let fits : leb 515 (length text + 1) ≡ false = lt→leb (length text + 1) 515 (omega arith) in
    rw (n, not_zero (length text), copied, fits, status_text) refl

-- A response whose status is OK succeeds, and clears the error, whatever error was there before.
pub get_status_success :
    (header : Bytes) (code : ℤ) (old : Bytes)
    → HasStatus header (codes "OK")
    → get_status header code old
      ≡ ok (record { ret = pos 0; status = fourd_ok; error_code = pos 0; error_string = [] })
get_status_success header code old s =
    found header (codes "OK") code old s ∙ read_text header (codes "OK") old code s.c s.rest s.short

-- A response with another status of fewer than 49 characters reports the error that its two fields hold:
-- `_get_status` returns what `atoi` makes of Error-Code, wrapped around to an `int`, and the connection gets this
-- number and the text of Error-Description. An Error-Code that wraps around to 0 is so returned as a success, though
-- with the status of an error.
pub get_status_failure :
    (header text : Bytes) (code : ℤ) (old c d : Bytes)
    → HasStatus header text
    → equal text (codes "OK") ≡ false
    → get header (codes "Error-Code") 50 ≡ ok (some c)
    → get header (codes "Error-Description") error_string_length ≡ ok (some d)
    → get_status header code old
      ≡ ok (record { ret = atoi c; status = fourd_error; error_code = atoi c; error_string = d })
unfolding error_fields
get_status_failure header text code old c d s other coded described =
    let fits : leb 515 (length text + 1) ≡ false =
      lt→leb (length text + 1) 515 (omega (arith, s.short)) in
    found header text code old s
    ∙ read_text header text old code s.c s.rest s.short
    ∙ rw (other, fits, coded, described, error_fields) refl
