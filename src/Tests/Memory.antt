-- ===== src/Tests/Memory.antt =====
-- A result with a number and a text, in a heap, and the rows that a response leaves.
use pdo_4d.Base.{
  ℕ, ◌≤◌, map, ◌≡◌, refl, arith, false, none, some, [], ◌∷◌, ◌==◌, if◌then◌else◌, ok, inr,
}
use pdo_4d.Connection.{FourdResult, string}
use pdo_4d.FourdType.{vk_long, vk_string}
use pdo_4d.Memory.{
  Ptr, Table, Heap, raw, struct, elements, result, fourd_free_result, free_data_result, switch_data,
}
use pdo_4d.Memory.Fetched.{IsSwitch, kept, switched, switch_data-frees}
use pdo_4d.Memory.Places.{Place, slot_of, has}
use pdo_4d.Memory.Result.{IsOwnedResult, fourd_free_result-frees}
use pdo_4d.Memory.Received.{Arena, allocate_data}
use pdo_4d.Memory.Received.Freed.{free_data_result-allocate_data}
use pdo_4d.Net.{segment}
use pdo_4d.Proc.{World, run}
use pdo_4d.Proc.Always.{Returns}
use pdo_4d.Receive.{socket_receiv_data}
use pdo_4d.Receive.Kinds.Data.{HoldsKinds, socket_receiv_data-HoldsKinds}
use pdo_4d.Tests.Data.{rows_result, seven, world}

abbrev number : Place
number = record { element = seven; address = 3; contents = 0 }

abbrev text : Place
text = record {
  element = record { type = vk_string; is_null = false; value = string 1 (65 ∷ 0 ∷ []) };
  address = 4;
  contents = 5;
}

abbrev table : Table
table = record { nb_column = 2; row_count_sent = 1; first_row = 0; columns = 6; elmt = 2 }

-- The result at 1, its elements at 2, their values at 3 and 4, and the characters of the text at 5.
abbrev heap : Heap
heap a =
    if a == 1
    then some (result table)
    else if a == 2
    then some (
        elements
          (record { type = vk_long; p_value = 3 } ∷ record { type = vk_string; p_value = 4 } ∷ []))
    else if a == 3
    then some raw
    else if a == 4
    then some (struct 5)
    else if a == 5
    then some raw
    else if a == 6
    then some raw
    else none

heap-IsOwnedResult : IsOwnedResult heap 1 table (number ∷ text ∷ [])
heap-IsOwnedResult = record {
  not_null = omega arith;
  holds = refl;
  has_table = omega arith;
  table = refl;
  whole = refl;
  small = omega arith;
  held = (
    record { kind = refl; placed = (omega arith, refl) },
    (
      record {
        kind = refl;
        placed = record { not_null = omega arith; holds = refl; behind = inr refl };
      },
      tt,
    ),
  );
  apart = (refl, (refl, (refl, (refl, (refl, tt)))));
}

fourd_free_result-frees_example :
    (g : Heap) × (fourd_free_result 1 heap ≡ ok g)
    × ((a : Ptr) → g a ≡ (if has a (1 ∷ 3 ∷ 5 ∷ 4 ∷ []) then none else heap a))
fourd_free_result-frees_example =
    fourd_free_result-frees heap 1 table (number ∷ text ∷ []) heap-IsOwnedResult

-- A new result at 7, of one row with one column, whose elements are at 8.
abbrev new_table : Table
new_table = record { nb_column = 1; row_count_sent = 1; first_row = 1; columns = 6; elmt = 8 }

abbrev two_results : Heap
two_results a =
    if a == 7 then some (result new_table) else if a == 8 then some (elements []) else heap a

two_results-IsSwitch : IsSwitch two_results 1 7 table new_table (number ∷ []) (text ∷ [])
two_results-IsSwitch = record {
  p_not_null = omega arith;
  q_not_null = omega arith;
  holds_old = refl;
  holds_new = refl;
  has_table = omega arith;
  table = refl;
  count = refl;
  small = omega arith;
  held = (record { kind = refl; placed = (omega arith, refl) }, tt);
  apart = (refl, (refl, (refl, (refl, tt))));
}

switch_data-frees_example :
    (g : Heap) × (switch_data 1 7 1 1 two_results ≡ ok g)
    × (g 1 ≡ some (result (kept table new_table 1 1)))
    × ((a : Ptr)
        → g a
          ≡ (if has a (7 ∷ 3 ∷ []) then none else switched two_results 1 7 table new_table 1 1 a))
switch_data-frees_example =
    switch_data-frees two_results 1 7 table new_table (number ∷ []) (text ∷ []) 1 1
      two_results-IsSwitch

abbrev socket_world : World
socket_world = record world { incoming = segment (b'1' ∷ 7 ∷ []) ∷ segment (0 ∷ 0 ∷ 0 ∷ []) ∷ [] }

abbrev received : FourdResult × ℕ
received = (record rows_result { elmt = some (seven ∷ []) }, 0)

receives : Returns (run (socket_receiv_data rows_result) socket_world) received
unfolding run socket_receiv_data pdo_4d.Net.frecv pdo_4d.Receive.Elements.read_cell
receives = Returns.returns received (record socket_world { incoming = [] })

socket_receiv_data-HoldsKinds_example : HoldsKinds (record rows_result { elmt = some (seven ∷ []) })
socket_receiv_data-HoldsKinds_example =
    socket_receiv_data-HoldsKinds rows_result socket_world receives

-- Two elements received into fresh memory, from the address 7 on.
abbrev fresh_arena : Arena
fresh_arena = record { next = 7; heap = heap }

abbrev received_table : Table
received_table = record { nb_column = 2; row_count_sent = 1; first_row = 0; columns = 6; elmt = 8 }

nothing_behind : (q : Ptr) → 7 ≤ q → heap q ≡ none
nothing_behind q h = ground arith

free_data_result-allocate_data_example :
    (g : Heap) × (free_data_result received_table
        (allocate_data (seven ∷ (text.element ∷ [])) fresh_arena).arena.heap
      ≡ ok g)
    × ((q : Ptr)
        → g q ≡ (
            if q == 8
            then some (
                elements
                  (map slot_of (allocate_data (seven ∷ (text.element ∷ [])) fresh_arena).places))
            else if q == 7
            then some raw
            else heap q))
free_data_result-allocate_data_example =
    free_data_result-allocate_data (seven ∷ (text.element ∷ [])) fresh_arena received_table
      (refl, (refl, tt)) (omega arith) nothing_behind refl refl (omega arith)
