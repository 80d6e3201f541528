-- ===== src/Session/Message.antt =====
-- The texts that `sprintf_s` builds.
use pdo_4d.Base.{
  ℕ, zero, suc, ◌+◌, ◌-◌, ◌/◌, ◌%◌, true, false, Option, none, some, List, [], ◌∷◌, ◌++◌, ltb,
  if◌then◌else◌, ℤ, pos, negsuc, signed32, Bytes, codes, snprintf, Outcome, ok, fault, ◌>>=◌,
}
use pdo_4d.Base64.{base64_encode}
use pdo_4d.Connection.{Element, max_header_size}
use pdo_4d.FourdType.{string_from_type}

-- `n + 1` rounds are enough for the digits of `n`.
abbrev pub decimal_from : ℕ → ℕ → Bytes
decimal_from zero n = []
decimal_from (suc fuel) n = elim (ltb n 10) [
  | true ↦ (b'0' + n) ∷ []
  | false ↦ decimal_from fuel (n / 10) ++ (b'0' + n % 10) ∷ []
]

abbrev pub decimal : ℕ → Bytes
decimal n = decimal_from (suc n) n

-- %d
abbrev pub format_d : ℤ → Bytes
format_d (pos n) = decimal n
format_d (negsuc n) = b'-' ∷ decimal (n + 1)

-- %03d of a number that is not negative
abbrev pub format_03d : ℕ → Bytes
format_03d n =
    if ltb n 10
    then codes "00" ++ decimal n
    else if ltb n 100
    then codes "0" ++ decimal n
    else decimal n

-- %s: a null pointer is undefined.
abbrev pub format_s : Option Bytes → Outcome Bytes
format_s none = fault
format_s (some s) = ok s

unfoldable pub login_message : ℕ → Bytes → Bytes → Option Bytes → Outcome Bytes
login_message id_cnx user pwd image_type = do
  user_b64 ← format_s (base64_encode user)
  pwd_b64 ← format_s (base64_encode pwd)
  image ← format_s image_type
  ok (
      snprintf 2048 (
        format_03d id_cnx
        ++ (codes " LOGIN \r\nUSER-NAME-BASE64:"
            ++ (user_b64
                ++ (codes "\r\nUSER-PASSWORD-BASE64:"
                    ++ (pwd_b64
                        ++ (codes "\r\nPREFERRED-IMAGE-TYPES:"
                            ++ (image
                                ++ codes
                                    "\r\nREPLY-WITH-BASE64-TEXT:Y\r\nPROTOCOL-VERSION:0.1a\r\n\r\n"))))))))

-- The text of a statement; `parameters` is what stands in front of the closing empty line.
abbrev statement_text : ℕ → Bytes → Bytes → Bytes → Bytes
statement_text id_cmd request_b64 image parameters = snprintf max_header_size (
    format_03d id_cmd
    ++ (codes " EXECUTE-STATEMENT\r\nFIRST-PAGE-SIZE:999999\r\nSTATEMENT-BASE64:"
        ++ (request_b64
            ++ (codes "\r\nOutput-Mode:release\r\nPREFERRED-IMAGE-TYPES:"
                ++ (image ++ (codes "\r\n" ++ (parameters ++ codes "\r\n")))))))

unfoldable pub statement_message : ℕ → Bytes → Option Bytes → Outcome Bytes
statement_message id_cmd request image_type = do
  request_b64 ← format_s (base64_encode request)
  image ← format_s image_type
  ok (statement_text id_cmd request_b64 image [])

-- The list of the parameters' types, built in a buffer of `MAX_HEADER_SIZE - 1` bytes.
unfoldable pub param_types : Bytes → List Element → Bytes
param_types s [] = s
param_types s (p ∷ ps) =
    param_types (snprintf (max_header_size - 1) (s ++ (b' ' ∷ string_from_type p.type))) ps

unfoldable pub param_message : ℕ → Bytes → Option Bytes → List Element → Outcome Bytes
unfolding param_types
param_message id_cmd request image_type params = do
  request_b64 ← format_s (base64_encode request)
  image ← format_s image_type
  ok (
      statement_text id_cmd request_b64 image
        (codes "PARAMETER-TYPES:" ++ (param_types [] params ++ codes "\r\n")))

-- Row indices are `unsigned int` and printed by %d.
unfoldable pub fetch_message : ℕ → ℤ → ℕ → ℕ → ℕ → Bytes
fetch_message id_cmd statement_id command_index first_row last_row = snprintf max_header_size (
    format_03d id_cmd
    ++ (codes " FETCH-RESULT\r\nSTATEMENT-ID:"
        ++ (format_d statement_id
            ++ (codes "\r\nCOMMAND-INDEX:"
                ++ (format_03d command_index
                    ++ (codes "\r\nFIRST-ROW-INDEX:"
                        ++ (format_d (signed32 first_row)
                            ++ (codes "\r\nLAST-ROW-INDEX:"
                                ++ (format_d (signed32 last_row)
                                    ++ codes "\r\nOutput-Mode:release\r\n\r\n")))))))))

unfoldable pub close_message : ℕ → ℤ → Bytes
close_message id_cmd statement_id = snprintf 2048 (
    format_03d id_cmd
    ++ (codes " CLOSE-STATEMENT\r\nSTATEMENT-ID:" ++ (format_d statement_id ++ codes "\r\n\r\n")))

unfoldable pub logout_message : ℕ → Bytes
logout_message id_cmd = snprintf 2048 (format_03d id_cmd ++ codes " LOGOUT\r\n\r\n")

unfoldable pub quit_message : ℕ → Bytes
quit_message id_cmd = snprintf 2048 (format_03d id_cmd ++ codes " QUIT\r\n\r\n")
