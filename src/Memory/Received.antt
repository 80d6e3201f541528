-- ===== src/Memory/Received.antt =====
-- lib4d_sql/communication.c, `socket_receiv_data`: the memory that it allocates for the elements it received.
pub mod Written
pub mod Freed
use pdo_4d.Base.{ℕ, ◌+◌, ◌^◌, Bool, true, ◌||◌, some, List, [], ◌∷◌, map, leb, ◌==◌, if◌then◌else◌}
use pdo_4d.Connection.{Element, Value, null_pointer, fixed, timestamp, float, string, blob, image}
use pdo_4d.Memory.{Ptr, null, Block, raw, struct, elements, Heap, write}
use pdo_4d.Memory.Places.{Place, slot_of}

-- The heap, and the first address that was never handed out. An allocation of a size that is not negative does not fail.
pub record Arena : Type 0 where
  pub next : Ptr
  pub heap : Heap

-- calloc
abbrev pub calloc : Block → Arena → Arena
calloc b a = record { next = a.next + 1; heap = write a.heap a.next (some b) }

-- Where a value lies, with the `data` behind its pointer, and what the arena is then.
pub record Spot : Type 0 where
  pub address : Ptr
  pub contents : Ptr
  pub arena : Arena

abbrev pub flat : Block → Arena → Spot
flat b a = record { address = a.next; contents = null; arena = calloc b a }

-- A structure, and its data.
abbrev pub with_data : Arena → Spot
with_data a = record {
  address = a.next;
  contents = a.next + 1;
  arena = calloc raw (calloc (struct (a.next + 1)) a);
}

-- There is no data for a length of 0, and none for a negative one: calloc returns null.
abbrev pub has_no_data : ℕ → Bool
has_no_data n = (n == 0) || leb (2 ^ 31) n

-- The allocations for one value.
unfoldable pub allocate : Value → Arena → Spot
unfolding write
allocate null_pointer a = record { address = null; contents = null; arena = a }
allocate (fixed bs) a = flat raw a
allocate (timestamp y m d ms) a = flat raw a
allocate (float e s n ds) a = flat (struct null) a
allocate (string n cs) a = with_data a
allocate (blob n bs) a = if has_no_data n then flat (struct null) a else with_data a
allocate (image n bs) a = if has_no_data n then flat (struct null) a else with_data a

abbrev pub place_at : Element → Spot → Place
place_at e s = record { element = e; address = s.address; contents = s.contents }

-- The allocations of the loops over rows and columns.
pub record Placed : Type 0 where
  pub places : List Place
  pub arena : Arena

unfoldable pub allocate_all : List Element → Arena → Placed
unfolding allocate
allocate_all [] a = record { places = []; arena = a }
allocate_all (e ∷ es) a =
    let s = allocate e.value a in
    let rest = allocate_all es s.arena in
    record { places = place_at e s ∷ rest.places; arena = rest.arena }

-- The table of the elements is allocated first, and filled on the way.
unfoldable pub allocate_table : List Element → Arena → Placed
unfolding allocate_all write
allocate_table es a =
    let rest = allocate_all es (calloc (elements []) a) in
    record {
      places = rest.places;
      arena = record {
        next = rest.arena.next;
        heap = write rest.arena.heap a.next (some (elements (map slot_of rest.places)));
      };
    }

-- The types of the columns are copied into memory of their own first.
unfoldable pub allocate_data : List Element → Arena → Placed
unfolding allocate_table write
allocate_data es a = allocate_table es (calloc raw a)
