-- ===== src/Tests/Calls.antt =====
-- Whole exchanges with the server.
use pdo_4d.Base.{◌≡◌, refl, false, some, [], ◌∷◌, ◌++◌, Bytes, codes, pos, negsuc}
use pdo_4d.Driver.Handle.{fourd_handle_doer}
use pdo_4d.Driver.Handle.Done.{counted, fourd_handle_doer-update_count}
use pdo_4d.Connection.{blank_result}
use pdo_4d.Proc.Refine.{serve}
use pdo_4d.Session.Exchange.{reply_of, clear_atrr_cnx}
use pdo_4d.Session.Query.{query, no_count}
use pdo_4d.Session.Served.{query-update_count}
use pdo_4d.Tests.Responses.{count-IsResponse, statement, statement_sent, single, dbh}
use pdo_4d.Tests.Data.{count_header, count_result, cnx}

abbrev login_text : Bytes
login_text =
    codes
      "001 LOGIN \r\nUSER-NAME-BASE64:dQ==\r\nUSER-PASSWORD-BASE64:cA==\r\nPREFERRED-IMAGE-TYPES:jpg\r\nREPLY-WITH-BASE64-TEXT:Y\r\nPROTOCOL-VERSION:0.1a\r\n\r\n"

abbrev minus_two : Bytes
minus_two = 254 ∷ 255 ∷ 255 ∷ 255 ∷ 255 ∷ 255 ∷ 255 ∷ 255 ∷ []

query-update_count_example :
    serve
      (query cnx 3 (codes "A") blank_result (some (codes "jpg")))
      (count_header ++ (minus_two ++ codes "x"))
    ≡ some (record {
      value = record {
        cnx = record ((reply_of (no_count (clear_atrr_cnx cnx)) (count_result, 0)).cnx) {
          updated_row = negsuc 1;
        };
        result = count_result;
        failed = false;
      };
      rest = codes "x";
      sent = statement ∷ [];
    })
query-update_count_example =
    query-update_count cnx 3 (codes "A") blank_result (some (codes "jpg")) statement count_header
      minus_two (codes "x") count_result single statement_sent count-IsResponse refl refl

abbrev three : Bytes
three = 3 ∷ 0 ∷ 0 ∷ 0 ∷ 0 ∷ 0 ∷ 0 ∷ 0 ∷ []

fourd_handle_doer-update_count_example :
    serve (fourd_handle_doer dbh (codes "A")) (count_header ++ (three ++ codes "x"))
    ≡ some (record {
      value = (record dbh { server = counted cnx count_result (pos 3) }, pos 3);
      rest = codes "x";
      sent = statement ∷ [];
    })
fourd_handle_doer-update_count_example =
    fourd_handle_doer-update_count dbh (codes "A") statement count_header three (codes "x")
      count_result single statement_sent count-IsResponse refl refl refl
