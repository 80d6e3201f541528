-- ===== src/Driver/Statement/Rows.antt =====
-- The rows of a result that are all held, fetched one after the other.
use pdo_4d.Base.{
  ℕ, zero, suc, ◌+◌, ◌-◌, ◌*◌, ◌^◌, ◌<◌, ◌≤◌, ◌≡◌, refl, arith, Bool, true, false, some, List, ltb,
  leb, lt→leb, le→leb, if◌then◌else◌, ltb_ℤ, pos, get_elem?, ok,
}
use pdo_4d.Client.Connect.{fourd_errno}
use pdo_4d.Client.Cursor.{before_first, fourd_next_row}
use pdo_4d.Client.Field.{fourd_field}
use pdo_4d.Client.Field.Bounds.{IsTable, fourd_field_current}
use pdo_4d.Connection.{Element, FourdResult, null_pointer}
use pdo_4d.Driver.{Stmt}
use pdo_4d.Driver.Statement.{pdo_4d_stmt_fetch}
use pdo_4d.Proc.{Proc, ret, ◌>>=◌}
use pdo_4d.Session.Fetch.{u32}

-- The first page holds all rows.
pub record IsWhole (res : FourdResult) : Type 0 where
  pub starts : res.first_row ≡ 0
  pub all_sent : res.row_count_sent ≡ res.row_count
  pub small : res.row_count + 99 < 2 ^ 32

-- The statement with its cursor at a row.
abbrev pub at_row : Stmt → FourdResult → ℕ → Stmt
at_row stmt res n = record stmt { result = some (record res { num_row = n }) }

-- `n` fetches, one after the other, with what the last one returned.
unfoldable pub fetches : ℕ → Stmt → Proc (Stmt × Bool)
fetches zero stmt = ret (stmt, true)
fetches (suc n) stmt = fetches n stmt >>= λ t. pdo_4d_stmt_fetch t.0

ge→ltb : (a b : ℕ) → b ≤ a → ltb a b ≡ false
ge→ltb a b h = ground arith

module _ (stmt : Stmt) (res : FourdResult) (whole : IsWhole res) where
  -- A fetch in front of a row that there is.
  fetch_next :
      (p k : ℕ)
      → u32 (p + 1) ≡ k
      → k < res.row_count
      → pdo_4d_stmt_fetch (at_row stmt res p) ≡ ret (at_row stmt res k, true)
  unfolding pdo_4d_stmt_fetch fourd_next_row
  fetch_next p k e h =
      let more : leb res.row_count k ≡ false = lt→leb k res.row_count h in
      let held : ltb (u32 (res.first_row + res.row_count_sent + 2 ^ 32 - 1)) k ≡ false =
        ge→ltb (u32 (res.first_row + res.row_count_sent + 2 ^ 32 - 1)) k
          (omega (arith, whole.starts, whole.all_sent, whole.small)) in
      rw (e, more, held) refl

  -- A fetch behind the last row.
  fetch_last :
      (p : ℕ)
      → u32 (p + 1) ≡ res.row_count
      → ltb_ℤ (pos 0) (fourd_errno stmt.dbh.server) ≡ false
      → pdo_4d_stmt_fetch (at_row stmt res p) ≡ ret (at_row stmt res res.row_count, false)
  unfolding pdo_4d_stmt_fetch fourd_next_row
  fetch_last p e fine =
      let over : leb res.row_count res.row_count ≡ true =
        le→leb res.row_count res.row_count (omega arith) in
      rw (e, over, fine) refl

  pub fetches-row :
      (k : ℕ)
      → k < res.row_count
      → fetches (suc k) (at_row stmt res before_first) ≡ ret (at_row stmt res k, true)
  unfolding fetches
  fetches-row zero h = fetch_next before_first 0 refl h
  fetches-row (suc k) h =
      rw (fetches-row k (omega arith), fetches)
        (fetch_next k (suc k) (omega (arith, whole.small)) h)

  fetches-end :
      (n : ℕ)
      → n ≡ res.row_count
      → ltb_ℤ (pos 0) (fourd_errno stmt.dbh.server) ≡ false
      → fetches (suc n) (at_row stmt res before_first) ≡ ret (at_row stmt res res.row_count, false)
  unfolding fetches
  fetches-end zero e fine = fetch_last before_first e fine
  fetches-end (suc n) e fine =
      rw (fetches-row n (omega (arith, e)), fetches)
        (fetch_last n (omega (arith, whole.small, e)) fine)

-- Take a result whose first page holds all its rows, fewer than 2 ^ 32 - 99, in a whole table of fewer than 2 ^ 32
-- elements, on a connection without a positive error code, with the cursor before the first row. The fetch after `k` others succeeds for
-- each row `k` and makes `fourd_field` give the elements of this row; the fetch behind the last row ends the rows without
-- a report. None of them sends or reads anything.
pub fetches_every_row :
    (stmt : Stmt) (res : FourdResult) (elmt : List Element) (k num_col : ℕ)
    → IsWhole res
    → IsTable res elmt
    → ltb_ℤ (pos 0) (fourd_errno stmt.dbh.server) ≡ false
    → k < res.row_count
    → num_col < res.nb_column
    → (fetches (suc k) (at_row stmt res before_first) ≡ ret (at_row stmt res k, true))
      × (fetches (suc res.row_count) (at_row stmt res before_first)
          ≡ ret (at_row stmt res res.row_count, false))
      × (e : Element) × (get_elem? elmt (k * res.nb_column + num_col) ≡ some e)
      × (fourd_field stmt.dbh.server (record res { num_row = k }) num_col
          ≡ ok (stmt.dbh.server, if e.is_null then null_pointer else e.value))
fetches_every_row stmt res elmt k num_col whole table fine row column =
    let (e, found, value) =
      fourd_field_current stmt.dbh.server (record res { num_row = k }) elmt num_col
        (record {
          small = whole.small;
          held = omega (arith, whole.starts, whole.all_sent);
          first = omega (arith, whole.starts);
          last = omega (arith, whole.starts, whole.all_sent);
        })
        (record { elements = table.elements; whole = table.whole; small = table.small }) column in
    let offset : k - res.first_row ≡ k = omega (arith, whole.starts) in
    (
      fetches-row stmt res whole k row,
      fetches-end stmt res whole res.row_count refl fine,
      e,
      rw offset at found,
      value,
    )
