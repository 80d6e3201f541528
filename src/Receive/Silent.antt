-- ===== src/Receive/Silent.antt =====
-- The reads of a response close nothing, and a closed socket gives no whole header.
use pdo_4d.Base.{
  ℕ, zero, suc, ◌+◌, ◌-◌, ◌*◌, ◌%◌, ◌^◌, ◌≡◌, refl, Bool, true, false, Option, none, some, List, [],
  ◌∷◌, ◌++◌, ltb, leb, ◌==◌, ℤ, pos, negsuc, Bytes, le_value, signed32, length,
}
use pdo_4d.Receive.Steps.{
  full_read, tested, byte_read, column_read, row_read, row_id_read, data_read,
}
use pdo_4d.Connection.{Element, Value, FourdResult, image, blob, max_header_size}
use pdo_4d.FourdType.{
  FourdType, vk_unknow, vk_boolean, vk_byte, vk_word, vk_long, vk_long8, vk_real, vk_float, vk_time,
  vk_timestamp, vk_duration, vk_text, vk_string, vk_blob, vk_image,
}
use pdo_4d.Proc.{ret}
use pdo_4d.Proc.Keeps.{Keeps, Keeps-bind, Keeps-if, Silent, Silent-bind, Silent-if}
use pdo_4d.Receive.{
  Header, with_header, header_loop, at_end, socket_receiv_header, Loop, going, stopped,
  read_columns, read_row_id, read_rows, column_types_of, socket_receiv_data,
}
use pdo_4d.Receive.Elements.{Cell, cell, broken, read_characters, read_bytes, read_value, read_cell}

-- The socket is as it was before, and if it was closed then no end of the header was found.
abbrev HeaderEnd : Bool → Bool → Header → Type 0
HeaderEnd o o' h = (o' ≡ o) × (o ≡ false → h.ended ≡ false)

full_read-HeaderEnd :
    (o : Bool) (last_first : Bytes) (c : Option ℕ)
    → (o ≡ false → c ≡ none)
    → Keeps (HeaderEnd o) o (full_read last_first c)
full_read-HeaderEnd o last_first none silent = (refl, λ e. refl)
full_read-HeaderEnd o last_first (some b) silent = tt

-- A byte comes from an open socket.
open_of_byte : (o : Bool) (b : ℕ) → (o ≡ false → ◌≡◌ {A = Option ℕ} (some b) none) → o ≡ false → ⊥
open_of_byte o b silent e = let same = silent e in absurd (cc)

tested-HeaderEnd :
    (o : Bool) (room : ℕ) (last_first : Bytes) (b : Bool)
    → (o ≡ false → ⊥)
    → Keeps (HeaderEnd o) o (header_loop room last_first)
    → Keeps (HeaderEnd o) o (tested room last_first b)
tested-HeaderEnd o room last_first true opened later =
    Keeps-if (HeaderEnd o) o (room == 0) _ _ (λ e. tt) (λ e. (refl, λ c. absurd (opened c)))
tested-HeaderEnd o room last_first false opened later = later

byte_read-HeaderEnd :
    (o : Bool) (room : ℕ) (last_first : Bytes)
    → ((next : Bytes) → Keeps (HeaderEnd o) o (header_loop room next))
    → (c : Option ℕ) → (o ≡ false → c ≡ none)
    → Keeps (HeaderEnd o) o (byte_read room last_first c)
byte_read-HeaderEnd o room last_first later none silent = (refl, λ e. refl)
byte_read-HeaderEnd o room last_first later (some b) silent =
    tested-HeaderEnd o room (b ∷ last_first) (at_end (b ∷ last_first)) (open_of_byte o b silent)
      (later (b ∷ last_first))

header_loop-HeaderEnd :
    (o : Bool) (room : ℕ) (last_first : Bytes) → Keeps (HeaderEnd o) o (header_loop room last_first)
unfolding header_loop
header_loop-HeaderEnd o zero last_first = full_read-HeaderEnd o last_first
header_loop-HeaderEnd o (suc room) last_first =
    byte_read-HeaderEnd o room last_first (header_loop-HeaderEnd o room)

-- The socket is as it was before, and a closed socket gives the value 1.
abbrev pub ReadHeader : Bool → Bool → FourdResult × ℕ → Type 0
ReadHeader o o' h = (o' ≡ o) × (o ≡ false → h.1 ≡ 1)

with_header-ReadHeader :
    (o o' : Bool) (state : FourdResult) (h : Header)
    → HeaderEnd o o' h
    → ReadHeader o o' (with_header state h)
with_header-ReadHeader o o' state h (same, unended) =
    (same, λ e. let u : h.ended ≡ false = unended e in rw u refl)

pub socket_receiv_header-ReadHeader :
    (o : Bool) (state : FourdResult) → Keeps (ReadHeader o) o (socket_receiv_header state)
unfolding socket_receiv_header
socket_receiv_header-ReadHeader o state =
    Keeps-bind (HeaderEnd o) (ReadHeader o) o (header_loop max_header_size [])
      (λ h. ret (with_header state h)) (header_loop-HeaderEnd o max_header_size [])
      λ o' h e. with_header-ReadHeader o o' state h e

read_characters-Silent : (n : ℤ) → Silent (read_characters n)
unfolding read_characters
read_characters-Silent (pos n) = Silent-if (n == 0) _ _ tt tt
read_characters-Silent (negsuc n) = Silent-if (ltb (n + 1) (2 ^ 30 - 1)) _ _ (λ bs. tt) tt

read_bytes-Silent : (t : FourdType) (v : ℕ → Bytes → Value) (n : ℕ) → Silent (read_bytes t v n)
unfolding read_bytes
read_bytes-Silent t v n = Silent-if (n == 0) _ _ tt (Silent-if (ltb n (2 ^ 31)) _ _ (λ bs. tt) tt)

read_value-Silent : (t : FourdType) → Silent (read_value t)
unfolding read_value
read_value-Silent vk_boolean = λ bs. tt
read_value-Silent vk_byte = λ bs. tt
read_value-Silent vk_word = λ bs. tt
read_value-Silent vk_long = λ bs. tt
read_value-Silent vk_long8 = λ bs. tt
read_value-Silent vk_real = λ bs. tt
read_value-Silent vk_duration = λ bs. tt
read_value-Silent vk_timestamp = λ year mounth day milli. tt
read_value-Silent vk_float = λ e s n. tt
read_value-Silent vk_string = λ bs. read_characters-Silent (signed32 (le_value bs))
read_value-Silent vk_image = λ bs. read_bytes-Silent vk_image image (le_value bs)
read_value-Silent vk_blob = λ bs. read_bytes-Silent vk_blob blob (le_value bs)
read_value-Silent vk_unknow = tt
read_value-Silent vk_time = tt
read_value-Silent vk_text = tt

read_cell-Silent : (t : FourdType) → Silent (read_cell t)
unfolding read_cell
read_cell-Silent t = λ code.
    Silent-if (le_value code == b'2') _ _ (λ bs. tt)
      (Silent-if (le_value code == b'0') _ _ tt
        (Silent-if (le_value code == b'1') _ _ (read_value-Silent t) tt))

column_read-Silent :
    (alloc : ℕ) (t : FourdType) (ts : List FourdType) (acc : List Element)
    → ((next : List Element) → Silent (read_columns alloc ts next))
    → (c : Cell) → Silent (column_read alloc t ts acc c)
column_read-Silent alloc t ts acc later (cell e) = later (acc ++ e ∷ [])
column_read-Silent alloc t ts acc later (broken code) = tt

read_columns-Silent :
    (alloc : ℕ) (ts : List FourdType) (acc : List Element) → Silent (read_columns alloc ts acc)
unfolding read_columns
read_columns-Silent alloc [] acc = tt
read_columns-Silent alloc (t ∷ ts) acc = Silent-if (leb alloc (length acc)) _ _ tt (
    Silent-bind (read_cell t) (column_read alloc t ts acc) (read_cell-Silent t)
      (column_read-Silent alloc t ts acc (read_columns-Silent alloc ts)))

read_row_id-Silent : (updateable : Bool) → Silent (read_row_id updateable)
unfolding read_row_id
read_row_id-Silent false = tt
read_row_id-Silent true = λ code.
    Silent-if (le_value code == b'1') _ _ (λ bs. tt)
      (Silent-if (le_value code == b'2') _ _ (λ bs. tt) tt)

row_read-Silent :
    (rows : ℕ) (updateable : Bool) (alloc : ℕ) (types : List FourdType)
    → ((acc : List Element) → Silent (read_rows rows updateable alloc types acc))
    → (l : Loop) → Silent (row_read rows updateable alloc types l)
row_read-Silent rows updateable alloc types later (going acc) = later acc
row_read-Silent rows updateable alloc types later (stopped code acc) = tt

row_id_read-Silent :
    (rows : ℕ) (updateable : Bool) (alloc : ℕ) (types : List FourdType) (acc : List Element)
    → ((acc : List Element) → Silent (read_rows rows updateable alloc types acc))
    → (e : Option ℤ) → Silent (row_id_read rows updateable alloc types acc e)
row_id_read-Silent rows updateable alloc types acc later (some code) = tt
row_id_read-Silent rows updateable alloc types acc later none =
    Silent-bind (read_columns alloc types acc) (row_read rows updateable alloc types)
      (read_columns-Silent alloc types acc) (row_read-Silent rows updateable alloc types later)

read_rows-Silent :
    (rows : ℕ) (updateable : Bool) (alloc : ℕ) (types : List FourdType) (acc : List Element)
    → Silent (read_rows rows updateable alloc types acc)
unfolding read_rows
read_rows-Silent zero updateable alloc types acc = tt
read_rows-Silent (suc rows) updateable alloc types acc =
    Silent-bind (read_row_id updateable) (row_id_read rows updateable alloc types acc)
      (read_row_id-Silent updateable)
      (row_id_read-Silent rows updateable alloc types acc
        (read_rows-Silent rows updateable alloc types))

data_read-Silent : (state : FourdResult) (alloc : ℕ) (l : Loop) → Silent (data_read state alloc l)
data_read-Silent state alloc (going acc) = tt
data_read-Silent state alloc (stopped code acc) = tt

pub socket_receiv_data-Silent : (state : FourdResult) → Silent (socket_receiv_data state)
unfolding socket_receiv_data
socket_receiv_data-Silent state =
    let alloc : ℕ = state.nb_column * state.row_count_sent % 2 ^ 32 in
    Silent-bind
      (read_rows state.row_count_sent state.updateability alloc (column_types_of state) [])
      (data_read state alloc)
      (read_rows-Silent state.row_count_sent state.updateability alloc (column_types_of state) [])
      (data_read-Silent state alloc)
