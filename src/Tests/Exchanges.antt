-- ===== src/Tests/Exchanges.antt =====
-- Parameters, further rows, and an error of the server.
use pdo_4d.Base.{◌≡◌, refl, arith, none, some, [], ◌∷◌, ◌++◌, Bytes, codes, length, pos, negsuc, ok}
use pdo_4d.Connection.{FourdResult, FourdStatement, blank_result}
use pdo_4d.Driver.Handle.{fourd_handle_doer}
use pdo_4d.Driver.Handle.Failed.{refused, run-fourd_handle_doer-failed}
use pdo_4d.Driver.Statement.Info.{pdo_4d_fetch_error_func}
use pdo_4d.Header.Response.{traite_header_response}
use pdo_4d.Net.{segment}
use pdo_4d.Proc.{World, run}
use pdo_4d.Proc.Refine.{IsReady, Ends}
use pdo_4d.Receive.Wire.{Row}
use pdo_4d.Session.Served.{IsResponse}
use pdo_4d.SqlState.{sqlstate_of}
use pdo_4d.Tests.Data.{rows_result, seven, world}
use pdo_4d.Tests.Responses.{ends_first-EndsFirst, dbh, statement, statement_sent, single}

-- A statement with one parameter.
abbrev state : FourdStatement
state = record {
  query = codes "A ?";
  nb_element = 1;
  nb_alloc_element = 1;
  elmt = some seven ∷ [];
  preferred_image_types = some (codes "jpg");
}

abbrev param_statement : Bytes
param_statement =
    codes
      "006 EXECUTE-STATEMENT\r\nFIRST-PAGE-SIZE:999999\r\nSTATEMENT-BASE64:QSA/\r\nOutput-Mode:release\r\nPREFERRED-IMAGE-TYPES:jpg\r\nPARAMETER-TYPES: VK_LONG\r\n\r\n"

-- A result of two rows, with the cursor on the first, which is the only one held.
abbrev first_of_two : FourdResult
first_of_two = record rows_result { row_count = 2; elmt = some (seven ∷ []); num_row = 0 }

abbrev second_page : FourdResult
second_page = record rows_result { first_row = 1 }

abbrev second_row : Row
second_row = record { id = 1 ∷ 0 ∷ 0 ∷ 0 ∷ []; elements = seven ∷ [] }

abbrev error_header : Bytes
error_header = codes "003 ERROR\r\nError-Code:12\r\nError-Description:No\r\n\r\n"

abbrev error_result : FourdResult
error_result = record blank_result {
  header = error_header;
  header_size = length error_header;
  status = 1;
  error_code = pos 12;
  error_string = codes "No";
}

error_treated :
    traite_header_response
      (record blank_result { header = error_header; header_size = length error_header })
    ≡ ok (error_result, 1)
unfolding traite_header_response pdo_4d.Header.Status.get_status pdo_4d.Header.Field.get
    pdo_4d.Strip.strstrip
error_treated = refl

error-IsResponse : IsResponse blank_result error_header (error_result, 1)
error-IsResponse = record {
  ends = ends_first-EndsFirst [] error_header refl;
  fits = omega arith;
  treated = error_treated;
}

abbrev error_world : World
error_world = record world { incoming = segment error_header ∷ [] }

error_world-IsReady : IsReady error_world (error_header ++ [])
error_world-IsReady = record {
  open_socket = refl;
  accepted = refl;
  live = (omega arith, tt);
  arrives = refl;
}

run-fourd_handle_doer-failed_example :
    Ends error_world
      (record { value = (refused dbh error_result, negsuc 0); rest = []; sent = statement ∷ [] })
      (run (fourd_handle_doer dbh (codes "A")) error_world)
    × (pdo_4d_fetch_error_func (refused dbh error_result) none ≡ some (12, some (codes "No")))
    × ((refused dbh error_result).error_code ≡ sqlstate_of (pos 12))
run-fourd_handle_doer-failed_example =
    run-fourd_handle_doer-failed dbh (codes "A") statement error_header [] error_result error_world
      single statement_sent error-IsResponse (omega arith) error_world-IsReady
