-- ===== src/Tests/Responses.antt =====
-- What the responses of the tests are, for whole exchanges.
use pdo_4d.Base.{
  none, ◌≡◌, refl, arith, Bool, true, false, some, [], ◌∷◌, ◌++◌, Bytes, codes, length, pos, ok,
  Bool-cases, inl, inr,
}
use pdo_4d.Driver.{Dbh, Stmt}
use pdo_4d.Connection.{blank_result}
use pdo_4d.Header.Response.{traite_header_response}
use pdo_4d.MultiQuery.{is_multi_query, scan, switch}
use pdo_4d.Proc.Refine.{IsReady}
use pdo_4d.Receive.{at_end}
use pdo_4d.Receive.HeaderLaws.{EndsFirst, at_end-true, at_end-false}
use pdo_4d.Receive.Wire.{IsNumber, IsSent, wire_rows}
use pdo_4d.Session.Message.{statement_message}
use pdo_4d.Session.Served.{IsResultSet, IsResponse}
use pdo_4d.Tests.Data.{count_header, rows_header, rows_result, count_result, cnx, one_row, world}

pub count_treated :
    traite_header_response
      (record blank_result { header = count_header; header_size = length count_header })
    ≡ ok (count_result, 0)
unfolding traite_header_response pdo_4d.Header.Status.get_status pdo_4d.Header.Field.get
    pdo_4d.Strip.strstrip pdo_4d.FourdType.result_type_from_string
count_treated = refl

pub rows_treated :
    traite_header_response
      (record blank_result { header = rows_header; header_size = length rows_header })
    ≡ ok (rows_result, 0)
unfolding traite_header_response pdo_4d.Header.Status.get_status pdo_4d.Header.Field.get
    pdo_4d.Base64.base64_decode pdo_4d.Base64.base64_decode_ex pdo_4d.Base64.decode_loop
    pdo_4d.Base64.reverse pdo_4d.Base64.put pdo_4d.Header.Aliases.read_aliases pdo_4d.Strip.strstrip
    pdo_4d.FourdType.result_type_from_string pdo_4d.FourdType.type_from_string
rows_treated = refl

-- Whether the empty line ends at the last byte and not before.
abbrev pub ends_first : Bytes → Bytes → Bool
ends_first before [] = false
ends_first before (c ∷ []) = at_end (c ∷ before)
ends_first before (c ∷ d ∷ h) = elim (at_end (c ∷ before)) [
  | true ↦ false
  | false ↦ ends_first (c ∷ before) (d ∷ h)
]

pub ends_first-EndsFirst : (before h : Bytes) → ends_first before h ≡ true → EndsFirst before h
ends_first-EndsFirst before [] e = absurd (cc)
ends_first-EndsFirst before (c ∷ []) e = EndsFirst.here (at_end-true (c ∷ before) e)
ends_first-EndsFirst before (c ∷ d ∷ h) e = elim (Bool-cases (at_end (c ∷ before))) [
  | inl t ↦ let no : ◌≡◌ {A = Bool} false true = rw (t, ends_first) at e in absurd (cc)
  | inr f ↦
      EndsFirst.later (at_end-false (c ∷ before) f)
        (ends_first-EndsFirst (c ∷ before) (d ∷ h) (rw (f, ends_first) at e))
]

pub count-IsResponse : IsResponse blank_result count_header (count_result, 0)
count-IsResponse = record {
  ends = ends_first-EndsFirst [] count_header refl;
  fits = omega arith;
  treated = count_treated;
}

pub rows-IsResponse : IsResponse blank_result rows_header (rows_result, 0)
rows-IsResponse = record {
  ends = ends_first-EndsFirst [] rows_header refl;
  fits = omega arith;
  treated = rows_treated;
}

pub rows-IsResultSet : IsResultSet rows_result one_row
rows-IsResultSet = record {
  kind = refl;
  typed = ((refl, refl, (IsSent.number (7 ∷ 0 ∷ 0 ∷ 0 ∷ []) IsNumber.long refl, tt)), tt);
  sent = refl;
  whole = refl;
  small = omega arith;
}

pub world-IsReady : IsReady world (rows_header ++ (wire_rows false one_row ++ codes "x"))
world-IsReady = record {
  open_socket = refl;
  accepted = refl;
  live = (omega arith, (omega arith, (omega arith, tt)));
  arrives = refl;
}

abbrev pub statement : Bytes
statement =
    codes
      "003 EXECUTE-STATEMENT\r\nFIRST-PAGE-SIZE:999999\r\nSTATEMENT-BASE64:QQ==\r\nOutput-Mode:release\r\nPREFERRED-IMAGE-TYPES:jpg\r\n\r\n"

pub statement_sent : statement_message 3 (codes "A") (some (codes "jpg")) ≡ ok statement
unfolding statement_message pdo_4d.Base64.base64_encode pdo_4d.Base64.encode_loop
    pdo_4d.Base64.encode_char
statement_sent = refl

pub single : is_multi_query (some (codes "A")) ≡ false
unfolding is_multi_query scan switch
single = refl

abbrev pub dbh : Dbh
dbh = record {
  server = cnx;
  einfo = record { errcode = 0; errmsg = none };
  charset = codes "UTF-8";
  error_code = codes "00000";
  has_methods = true;
  thrown = false;
}

abbrev pub stmt : Stmt
stmt = record {
  dbh = dbh;
  state = none;
  result = none;
  einfo = record { errcode = 0; errmsg = none };
  charset = codes "UTF-8";
  error_code = [];
  active_query_string = codes "A";
  row_count = pos 0;
  column_count = 0;
  names = [];
}
