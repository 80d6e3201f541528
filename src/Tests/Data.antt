-- ===== src/Tests/Data.antt =====
-- Responses, results and a connection that the tests share.
use pdo_4d.Base.{true, false, some, List, [], ◌∷◌, Bytes, codes, length, pos}
use pdo_4d.Connection.{Element, Fourd, FourdResult, fixed, blank_result}
use pdo_4d.FourdType.{vk_long, update_count, result_set}
use pdo_4d.Proc.{World}
use pdo_4d.Net.{segment}
use pdo_4d.Receive.Wire.{Row}

abbrev pub count_header : Bytes
count_header = codes "003 OK\r\nResult-Type:Update-Count\r\n\r\n"

abbrev pub rows_header : Bytes
rows_header =
    codes
      "003 OK\r\nColumn-Count:1\r\nColumn-Types:VK_LONG\r\nColumn-Aliases-Base64:SUQ=\r\nResult-Type:Result-Set\r\nRow-Count:1\r\nRow-Count-Sent:1\r\nColumn-Updateability:N\r\n\r\n"

abbrev pub rows_result : FourdResult
rows_result = record blank_result {
  header = rows_header;
  header_size = length rows_header;
  result_type = result_set;
  row_count = 1;
  row_count_sent = 1;
  nb_column = 1;
  columns =
      some (record { s_type = codes "VK_LONG"; type = vk_long; s_column_name = codes "ID" } ∷ []);
}

abbrev pub count_result : FourdResult
count_result = record blank_result {
  header = count_header;
  header_size = length count_header;
  result_type = update_count;
  updateability = true;
}

-- A connection that is open.
abbrev pub cnx : Fourd
cnx = record {
  socket = some 5;
  init = true;
  connected = true;
  status = 0;
  error_code = pos 0;
  error_string = [];
  updated_row = pos 0;
  preferred_image_types = some (codes "jpg");
  timeout = pos 30;
}

abbrev pub seven : Element
seven = record { type = vk_long; is_null = false; value = fixed (7 ∷ 0 ∷ 0 ∷ 0 ∷ []) }

abbrev pub one_row : List Row
one_row = record { id = 1 ∷ 0 ∷ 0 ∷ 0 ∷ []; elements = seven ∷ [] } ∷ []

-- The header comes in one segment, and the row in two.
abbrev pub world : World
world = record {
  incoming = segment rows_header ∷ segment (b'1' ∷ 7 ∷ []) ∷ segment (0 ∷ 0 ∷ 0 ∷ b'x' ∷ []) ∷ [];
  sends = [];
  sent = [];
  is_open = true;
}
