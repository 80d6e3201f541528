-- ===== src/Memory.antt =====
-- lib4d_sql/fourd_interne.c and lib4d_sql/fourd.c: the release of memory, over a heap of blocks. `Places` says how the elements of
-- a result lie in the heap.
pub mod Places
pub mod Release
pub mod Result
pub mod Fetched
pub mod Received
use pdo_4d.Base.{
  ℕ, zero, suc, ◌+◌, ◌*◌, Option, none, some, List, ◌==◌, if◌then◌else◌, get_elem?, Outcome, ok,
  fault, ◌>>=◌,
}
use pdo_4d.FourdType.{
  FourdType, vk_unknow, vk_boolean, vk_byte, vk_word, vk_long, vk_long8, vk_real, vk_float, vk_time,
  vk_timestamp, vk_duration, vk_text, vk_string, vk_blob, vk_image,
}
use pdo_4d.Session.Fetch.{u32}

abbrev pub Ptr : Type 0
Ptr = ℕ

abbrev pub null : Ptr
null = 0

-- A FOURD_ELEMENT in memory.
pub record Slot : Type 0 where
  pub type : FourdType
  pub p_value : Ptr

-- The pointers of a FOURD_RESULT in memory, and the numbers that tell how many elements it has.
pub record Table : Type 0 where
  pub nb_column : ℕ
  pub row_count_sent : ℕ
  pub first_row : ℕ
  pub columns : Ptr
  pub elmt : Ptr

-- What an allocated block holds: no pointer, a structure with its `data`, an array of elements, or a result.
pub data Block : Type 0 where
  raw : Block
  struct : Ptr → Block
  elements : List Slot → Block
  result : Table → Block

-- `none` where nothing is allocated.
abbrev pub Heap : Type 0
Heap = Ptr → Option Block

unfoldable pub write : Heap → Ptr → Option Block → Heap
write h p c a = if a == p then c else h a

-- free(p): undefined for what is not allocated.
abbrev pub release : Ptr → Heap → Outcome Heap
release p h = elim (h p) [ none ↦ fault | some _ ↦ ok (write h p none) ]

unfoldable pub free : Ptr → Heap → Outcome Heap
free p h = if p == null then ok h else release p h

-- p->data
unfoldable pub load_data : Ptr → Heap → Outcome Ptr
load_data p h = elim (h p) [
  | none ↦ fault
  | some b ↦ elim b [ raw ↦ fault | struct d ↦ ok d | elements ss ↦ fault | result t ↦ fault ]
]

-- FreeFloat, FreeString, FreeBlob and FreeImage have the same body.
unfoldable pub free_struct : Ptr → Heap → Outcome Heap
unfolding load_data free
free_struct p h = if p == null then ok h else (load_data p h >>= λ d. free d h >>= λ g. free p g)

abbrev pub free_float : Ptr → Heap → Outcome Heap
free_float = free_struct

abbrev pub free_string : Ptr → Heap → Outcome Heap
free_string = free_struct

abbrev pub free_blob : Ptr → Heap → Outcome Heap
free_blob = free_struct

abbrev pub free_image : Ptr → Heap → Outcome Heap
free_image = free_struct

-- The switch on the type of an element.
unfoldable pub free_element : FourdType → Ptr → Heap → Outcome Heap
unfolding free free_struct
free_element vk_boolean p h = free p h
free_element vk_byte p h = free p h
free_element vk_word p h = free p h
free_element vk_long p h = free p h
free_element vk_long8 p h = free p h
free_element vk_real p h = free p h
free_element vk_duration p h = free p h
free_element vk_timestamp p h = free p h
free_element vk_float p h = free p h
free_element vk_string p h = free_string p h
free_element vk_blob p h = free_blob p h
free_element vk_image p h = free_image p h
free_element vk_unknow p h = ok h
free_element vk_time p h = ok h
free_element vk_text p h = ok h

-- elmt[i]
unfoldable pub load_slot : Ptr → ℕ → Heap → Outcome Slot
load_slot p i h = elim (h p) [
  | none ↦ fault
  | some b ↦ elim b [
    | raw ↦ fault
    | struct d ↦ fault
    | elements ss ↦ elim (get_elem? ss i) [ none ↦ fault | some s ↦ ok s ]
    | result t ↦ fault
  ]
]

-- The loop, with `left` elements to go from the `i`-th on.
unfoldable pub free_elements : ℕ → ℕ → Ptr → Heap → Outcome Heap
unfolding load_slot free_element
free_elements zero i p h = ok h
free_elements (suc left) i p h = do
  s ← load_slot p i h
  g ← free_element s.type s.p_value h
  free_elements left (i + 1) p g

-- `nbElmt` is a product of `unsigned int`.
unfoldable pub free_data_result : Table → Heap → Outcome Heap
unfolding free_elements
free_data_result res h =
    if res.elmt == null
    then ok h
    else free_elements (u32 (res.nb_column * res.row_count_sent)) 0 res.elmt h

-- *res
unfoldable pub load_result : Ptr → Heap → Outcome Table
load_result p h = elim (h p) [
  | none ↦ fault
  | some b ↦ elim b [ raw ↦ fault | struct d ↦ fault | elements ss ↦ fault | result t ↦ ok t ]
]

unfoldable pub fourd_free_result : Ptr → Heap → Outcome Heap
unfolding load_result free_data_result free
fourd_free_result p h =
    if p == null
    then free p h
    else (load_result p h >>= λ res. free_data_result res h >>= λ g. free p g)

-- The end of `_fetch_result`: the two results exchange their elements, and the new one is freed with the old elements and its own
-- number of rows. `first_row` and `row_count_sent` are those that were asked for.
unfoldable pub switch_data : Ptr → Ptr → ℕ → ℕ → Heap → Outcome Heap
unfolding load_result free_data_result free write
switch_data res n_res first_row row_count_sent h = do
  old ← load_result res h
  new ← load_result n_res h
  let kept = record old { elmt = new.elmt; first_row = first_row; row_count_sent = row_count_sent }
  let dropped = record new { elmt = old.elmt }
  let g = write (write h n_res (some (result dropped))) res (some (result kept))
  f ← free_data_result dropped g
  free n_res f
