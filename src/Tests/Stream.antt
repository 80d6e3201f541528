-- ===== src/Tests/Stream.antt =====
-- The network, the header's end, and the values on the wire.
use pdo_4d.Base.{
  ◌≡◌, refl, arith, true, false, none, some, List, [], ◌∷◌, ◌++◌, Bytes, codes, ok, fault,
}
use pdo_4d.Connection.{
  Element, FourdResult, null_pointer, fixed, string, blob, image, blank_column, blank_result,
}
use pdo_4d.FourdType.{vk_long, vk_string, vk_blob, vk_image}
use pdo_4d.Net.{Event, segment, failure, frecv, frecv_loop}
use pdo_4d.Net.Stream.{Reads, frecv-Reads, frecv_loop_hangs}
use pdo_4d.Params.{copy, serialize}
use pdo_4d.Params.Laws.{serialize_blob_overread}
use pdo_4d.Proc.{Proc, ret, read, transmit, World, run}
use pdo_4d.Proc.Refine.{IsReady, Ends, Served, serve, run-serve}
use pdo_4d.Proc.Yields.{Yields}
use pdo_4d.Receive.{socket_receiv_header}
use pdo_4d.Receive.Elements.{cell, read_cell}
use pdo_4d.Receive.ElementLaws.{read_cell-wire}
use pdo_4d.Tests.Responses.{ends_first-EndsFirst}
use pdo_4d.Receive.HeaderLaws.{EndsFirst, socket_receiv_header-EndsFirst}
use pdo_4d.Receive.Wire.{IsSent, Row, wire, wire_rows}

-- Five bytes in three segments, and a failure behind them.
abbrev events : List Event
events = segment (1 ∷ 2 ∷ []) ∷ segment (3 ∷ []) ∷ segment (4 ∷ 5 ∷ []) ∷ failure ∷ []

frecv-Reads_example : Reads 4 events (frecv 4 events)
frecv-Reads_example =
    frecv-Reads 4 events (omega arith, (omega arith, (omega arith, tt))) (omega arith) (omega arith)

frecv_loop_hangs_example : frecv_loop 9 4 (segment (1 ∷ 2 ∷ []) ∷ []) ≡ none
frecv_loop_hangs_example = frecv_loop_hangs 9 4 (segment (1 ∷ 2 ∷ []) ∷ []) tt (omega arith)

-- A question, and an answer of two bytes.
abbrev dialogue : Proc Bytes
dialogue = transmit (codes "?") (λ sent. read 2 ret)

abbrev dialogue_world : World
dialogue_world = record {
  incoming = segment (7 ∷ []) ∷ segment (8 ∷ 9 ∷ []) ∷ [];
  sends = [];
  sent = [];
  is_open = true;
}

abbrev dialogue_result : Served Bytes
dialogue_result = record { value = 7 ∷ 8 ∷ []; rest = 9 ∷ []; sent = codes "?" ∷ [] }

dialogue_served : serve dialogue (7 ∷ 8 ∷ 9 ∷ []) ≡ some dialogue_result
unfolding serve
dialogue_served = refl

dialogue-IsReady : IsReady dialogue_world (7 ∷ 8 ∷ 9 ∷ [])
dialogue-IsReady = record {
  open_socket = refl;
  accepted = refl;
  live = (omega arith, (omega arith, tt));
  arrives = refl;
}

run-serve_example : Ends dialogue_world dialogue_result (run dialogue dialogue_world)
run-serve_example =
    run-serve dialogue dialogue_world (7 ∷ 8 ∷ 9 ∷ []) dialogue-IsReady dialogue_served

abbrev short_header : Bytes
short_header = codes "1\r\n\r\n"

short_header_ends : EndsFirst [] short_header
short_header_ends = ends_first-EndsFirst [] short_header refl

socket_receiv_header-EndsFirst_example :
    Yields
      (socket_receiv_header blank_result)
      (short_header ++ codes "data")
      (record blank_result { header = short_header; header_size = 5 }, 0)
      (codes "data")
socket_receiv_header-EndsFirst_example =
    socket_receiv_header-EndsFirst blank_result short_header (codes "data") short_header_ends
      (omega arith)

abbrev seven : Element
seven = record { type = vk_long; is_null = false; value = fixed (7 ∷ 0 ∷ 0 ∷ 0 ∷ []) }

abbrev hi : Element
hi = record { type = vk_string; is_null = false; value = string 2 (104 ∷ 0 ∷ 105 ∷ 0 ∷ []) }

hi-IsSent : IsSent hi
hi-IsSent = IsSent.text 1 (104 ∷ 0 ∷ 105 ∷ 0 ∷ []) (omega arith) refl

read_cell-wire_example :
    Yields (read_cell vk_string) (wire hi.value ++ codes "x") (cell hi) (codes "x")
read_cell-wire_example = read_cell-wire (codes "x") hi-IsSent

-- Two rows with a number and a text, which can be updated.
abbrev two_rows : List Row
two_rows =
    record { id = 1 ∷ 0 ∷ 0 ∷ 0 ∷ []; elements = seven ∷ hi ∷ [] }
    ∷ record {
      id = 2 ∷ 0 ∷ 0 ∷ 0 ∷ [];
      elements = seven ∷ record { type = vk_string; is_null = true; value = null_pointer } ∷ [];
    }
    ∷ []

abbrev announced : FourdResult
announced = record blank_result {
  nb_column = 2;
  columns =
      some (record blank_column { type = vk_long } ∷ record blank_column { type = vk_string } ∷ []);
  row_count = 2;
  row_count_sent = 2;
  updateability = true;
}

abbrev rows_world : World
rows_world = record {
  incoming = segment (wire_rows true two_rows ++ codes "x") ∷ [];
  sends = [];
  sent = [];
  is_open = true;
}

serialize_blob_overread_example :
    (copy vk_blob (blob 2 (8 ∷ 9 ∷ [])) ≡ ok (blob 2 (8 ∷ 9 ∷ [])))
    × (copy vk_image (image 2 (8 ∷ 9 ∷ [])) ≡ ok (image 2 (8 ∷ 9 ∷ [])))
    × (serialize [] vk_blob (blob 2 (8 ∷ 9 ∷ [])) ≡ fault)
    × (serialize [] vk_image (image 2 (8 ∷ 9 ∷ [])) ≡ fault)
serialize_blob_overread_example = serialize_blob_overread [] 2 (8 ∷ 9 ∷ []) (omega arith) refl
