-- ===== src/Tests/Codecs.antt =====
-- Base64, requests, fields of headers, SQLSTATEs and literals.
use pdo_4d.Base.{
  pos, ◌≡◌, ◌↔◌, refl, arith, true, false, some, [], ◌∷◌, ◌++◌, Bytes, codes, length, ok, fault,
  take, Absent, IsBytes,
}
use pdo_4d.Base64.{encode_loop, encode_char, base64_encode, base64_decode_ex}
use pdo_4d.Base64.RoundTrip.{base64_decode_ex-base64_encode, base64_decode_ex-some}
use pdo_4d.Header.Field.{get}
use pdo_4d.Header.Field.Lines.{HasLine, get_field, get_base64_field, get_overflow}
use pdo_4d.Header.Status.{get_status}
use pdo_4d.Header.Status.Line.{get_status_failure}
use pdo_4d.MultiQuery.{is_multi_query}
use pdo_4d.MultiQuery.Context.{plain, HasSecond}
use pdo_4d.MultiQuery.Laws.{is_multi_query-HasSecond}
use pdo_4d.Quote.{Quoted, fourd_handle_quoter}
use pdo_4d.Quote.Literal.{
  read_literal, length-fourd_handle_quoter, read_literal-fourd_handle_quoter,
}

-- Three bytes, one of them above the ASCII range.
abbrev octets : Bytes
octets = 65 ∷ 200 ∷ 7 ∷ 0 ∷ []

octets-IsBytes : IsBytes octets
octets-IsBytes = (omega arith, (omega arith, (omega arith, (omega arith, tt))))

base64_decode_ex-base64_encode_example :
    (t : Bytes) × (base64_encode octets ≡ some t) × (base64_decode_ex true t ≡ some octets)
base64_decode_ex-base64_encode_example =
    base64_decode_ex-base64_encode true octets octets-IsBytes (omega arith)

octets_encoded : base64_encode octets ≡ some (codes "QcgHAA==")
unfolding base64_encode encode_loop encode_char
octets_encoded = refl

octets_decoded : base64_decode_ex false (codes "QcgHAA==") ≡ some octets
octets_decoded = base64_decode_ex-some false octets octets-IsBytes octets_encoded

is_multi_query-HasSecond_example :
    (is_multi_query (some (codes "SELECT ';' FROM a; DELETE")) ≡ true)
    ↔ HasSecond 0 0 plain (codes "SELECT ';' FROM a; DELETE")
is_multi_query-HasSecond_example =
    is_multi_query-HasSecond (codes "SELECT ';' FROM a; DELETE") (omega arith)

its-no_nul : Absent 0 (codes "it's")
its-no_nul = (ground arith, (ground arith, (ground arith, (ground arith, tt))))

space-no_quote : Absent b'\'' (take 1 (codes " OR 1=1"))
space-no_quote = (ground arith, tt)

length-fourd_handle_quoter_example :
    (q : Quoted) × (fourd_handle_quoter (codes "it's") ≡ ok q) × (length q.text ≡ q.size)
length-fourd_handle_quoter_example =
    length-fourd_handle_quoter (codes "it's") its-no_nul (omega arith)

read_literal-fourd_handle_quoter_example :
    (q : Quoted) × (fourd_handle_quoter (codes "it's") ≡ ok q)
    × (read_literal (q.text ++ codes " OR 1=1") ≡ some (codes "it's", codes " OR 1=1"))
read_literal-fourd_handle_quoter_example =
    read_literal-fourd_handle_quoter (codes "it's") (codes " OR 1=1") its-no_nul (omega arith)
      space-no_quote

abbrev error_header : Bytes
error_header = codes "003 ERROR\r\nError-Code:12\r\n\r\n"

error_code_line : HasLine error_header (codes "Error-Code") (codes "12\r")
error_code_line = record {
  before = codes "003 ERROR\r\n";
  gap = [];
  rest = codes "\r\n";
  splits = refl;
  first =
      (refl, (refl, (refl, (refl, (refl, (refl, (refl, (refl, (refl, (refl, (refl, tt)))))))))));
  no_colon = tt;
  no_newline = (ground arith, (ground arith, (ground arith, tt)));
}

get_field_example : get error_header (codes "Error-Code") 50 ≡ ok (some (codes "12"))
get_field_example = get_field (codes "12") b'\r' 50 refl error_code_line (omega arith)

get_overflow_example : get error_header (codes "Error-Code") 3 ≡ fault
get_overflow_example = get_overflow (codes "12\r") 3 error_code_line (omega arith)

abbrev alias_header : Bytes
alias_header = codes "Column-Aliases-Base64:SUQ=\r\n\r\n"

alias_line : HasLine alias_header (codes "Column-Aliases-Base64") (codes "SUQ=\r")
alias_line = record {
  before = [];
  gap = [];
  rest = codes "\r\n";
  splits = refl;
  first = tt;
  no_colon = tt;
  no_newline = (ground arith, (ground arith, (ground arith, (ground arith, (ground arith, tt)))));
}

id_encoded : base64_encode (codes "ID") ≡ some (codes "SUQ=")
unfolding base64_encode encode_loop encode_char
id_encoded = refl

get_base64_field_example :
    get alias_header (codes "Column-Aliases-Base64") 250 ≡ ok (some (codes "ID"))
get_base64_field_example =
    get_base64_field (codes "ID") (codes "SUQ=") (codes "-Base64") b'\r' 250 refl
      (omega arith, (omega arith, tt)) (ground arith, (ground arith, tt)) id_encoded alias_line
      (omega arith)

abbrev refusal : Bytes
refusal = codes "003 ERROR\r\nError-Code:12\r\nError-Description:No\r\n\r\n"

refusal_code : get refusal (codes "Error-Code") 50 ≡ ok (some (codes "12"))
unfolding get
refusal_code = refl

refusal_description : get refusal (codes "Error-Description") 2048 ≡ ok (some (codes "No"))
unfolding get
refusal_description = refl

get_status_failure_example :
    get_status refusal (pos 0) []
    ≡ ok (record { ret = pos 12; status = 1; error_code = pos 12; error_string = codes "No" })
get_status_failure_example =
    get_status_failure refusal (codes "ERROR") (pos 0) [] (codes "12") (codes "No")
      (record {
        id = codes "003";
        c = b'\r';
        rest = codes "Error-Code:12\r\nError-Description:No\r\n\r\n";
        splits = refl;
        no_space = (ground arith, (ground arith, (ground arith, tt)));
        no_newline = (
          ground arith,
          (ground arith, (ground arith, (ground arith, (ground arith, (ground arith, tt))))),
        );
        short = omega arith;
      })
      refl refusal_code refusal_description
