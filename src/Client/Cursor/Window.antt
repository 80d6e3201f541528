-- ===== src/Client/Cursor/Window.antt =====
-- The window of rows that the client holds, and the row that the cursor stands on.
use pdo_4d.Base.{
  ℕ, ◌*◌, ◌+◌, ◌-◌, ◌^◌, ◌≤◌, ◌<◌, min, ◌≡◌, refl, arith, Bool, true, false, leb, if◌then◌else◌,
  Bool-cases, inl, inr, leb→le, ltb→lt, leb→lt, ltb→ge,
}
use pdo_4d.Client.Cursor.{advance, is_behind, fourd_next_row}
use pdo_4d.Client.Cursor.Held.{HeldRows, fourd_next_row-HeldRows, sent_rows}
use pdo_4d.Connection.{Fourd, FourdResult, blank_result}
use pdo_4d.Proc.{World, run, ret}
use pdo_4d.Proc.Always.{Always, Always-after, Always-if, Always-mono, Returns, run-Always}
use pdo_4d.Session.Exchange.{Reply, clear_atrr_cnx}
use pdo_4d.Session.Fetch.{u32, fetch_rows, fetch_result, next_first, next_last, overruns}

-- The next row is one of those held, or the first behind them; a result with rows came with some.
pub record IsCursor (res : FourdResult) : Type 0 where
  pub small : res.row_count + 99 < 2 ^ 32
  pub held : res.first_row + res.row_count_sent ≤ res.row_count
  pub some_rows : min 1 res.row_count ≤ res.first_row + res.row_count_sent
  pub first : res.first_row ≤ u32 (res.num_row + 1)
  pub last : u32 (res.num_row + 1) ≤ res.first_row + res.row_count_sent

-- The cursor stands on a row that is held.
pub record IsCurrent (res : FourdResult) : Type 0 where
  pub small : res.row_count + 99 < 2 ^ 32
  pub held : res.first_row + res.row_count_sent ≤ res.row_count
  pub first : res.first_row ≤ res.num_row
  pub last : res.num_row < res.first_row + res.row_count_sent

pub IsCurrent-IsCursor : (res : FourdResult) → IsCurrent res → IsCursor res
IsCurrent-IsCursor res c = record {
  small = c.small;
  held = c.held;
  some_rows = omega (arith, c.last);
  first = omega (arith, c.first, c.last, c.held, c.small);
  last = omega (arith, c.first, c.last, c.held, c.small);
}

record Moved (res new : FourdResult) : Type 0 where
  first : new.first_row ≡ next_first res
  sent : new.row_count_sent ≡ sent_rows res
  count : new.row_count ≡ res.row_count
  num : new.num_row ≡ res.num_row

fetch_result-Moved :
    (cnx : Fourd) (res : FourdResult)
    → Always (λ r. r.failed ≡ false → Moved res r.result) (fetch_result cnx res)
unfolding fetch_result
fetch_result-Moved cnx res =
    Always-after (λ r. r.failed ≡ false → Moved res r.result)
      (fetch_rows (clear_atrr_cnx cnx) 123 res (next_first res) (next_last res)
        (record blank_result {
          first_row = next_first res;
          row_count_sent = sent_rows res;
          nb_column = res.nb_column;
          columns = res.columns;
        }))
      _
      λ r.
        Always-if (λ r. r.failed ≡ false → Moved res r.result) r.failed _ _ (λ e. absurd (cc))
          (Always-if (λ r. r.failed ≡ false → Moved res r.result)
            (overruns res.elmt (u32 (r.result.nb_column * r.result.row_count_sent))) _ _ tt
            (λ e. record { first = refl; sent = refl; count = refl; num = refl }))

-- The rows that are asked for: they begin at the next row `n`, and none lies behind the last row.
pub record Asked (n count first sent : ℕ) : Type 0 where
  pub first_is_next : first ≡ n
  pub within : first + sent ≤ count
  pub some_sent : n < first + sent

pub asked :
    (first sent count n : ℕ)
    → count + 99 < 2 ^ 32
    → first + sent ≤ count
    → min 1 count ≤ first + sent
    → n ≤ first + sent
    → n < count
    → u32 (first + sent + 2 ^ 32 - 1) < n
    → (last : ℕ)
    → last ≡ (
        if leb count (u32 (first + sent + 99))
        then u32 (count + 2 ^ 32 - 1)
        else u32 (first + sent + 99))
    → Asked n count (u32 (first + sent)) (u32 (last + 2 ^ 32 - u32 (first + sent) + 1))
asked first sent count n small held some_rows le lt behind last e =
    elim (Bool-cases (leb count (u32 (first + sent + 99)))) [
      | inl b ↦
          let l : last ≡ u32 (count + 2 ^ 32 - 1) = rw b at e in
          let at_end = leb→le count (u32 (first + sent + 99)) b in
          record { first_is_next = omega arith; within = omega arith; some_sent = omega arith }
      | inr b ↦
          let l : last ≡ u32 (first + sent + 99) = rw b at e in
          let before_end : u32 (first + sent + 99) < count =
            leb→lt count (u32 (first + sent + 99)) b in
          record { first_is_next = omega arith; within = omega arith; some_sent = omega arith }
    ]

-- The cursor went to the next row.
abbrev Advances : FourdResult → Reply → Type 0
Advances res r =
    r.failed ≡ false
    → IsCurrent r.result
      × (r.result.row_count ≡ res.row_count)
      × (r.result.num_row ≡ u32 (res.num_row + 1))

held_row :
    (cnx : Fourd) (res : FourdResult)
    → IsCursor res
    → u32 (res.num_row + 1) < res.row_count
    → (b : Bool) → is_behind (advance res) ≡ b
    → Always (Advances res) (
        if b
        then fetch_result cnx (advance res)
        else ret (record { cnx = cnx; result = advance res; failed = false }))
held_row cnx res c lt true e =
    let a =
      asked res.first_row res.row_count_sent res.row_count (u32 (res.num_row + 1)) c.small c.held
        c.some_rows c.last lt
        (ltb→lt (u32 (res.first_row + res.row_count_sent + 2 ^ 32 - 1)) (u32 (res.num_row + 1)) e)
        (next_last (advance res)) refl in
    Always-mono (λ r. r.failed ≡ false → Moved (advance res) r.result) (Advances res)
      (fetch_result cnx (advance res)) (fetch_result-Moved cnx (advance res))
      λ r h f.
        let m : Moved (advance res) r.result = h f in
        (
          record {
            small = omega (arith, m.count, c.small);
            held = omega (arith, m.first, m.sent, m.count, a.within);
            first = omega (arith, m.first, m.num, a.first_is_next);
            last = omega (arith, m.first, m.sent, m.num, a.some_sent);
          },
          m.count,
          m.num,
        )
held_row cnx res c lt false e = λ f. (
  record {
    small = c.small;
    held = c.held;
    first = c.first;
    last =
        let near =
          ltb→ge (u32 (res.first_row + res.row_count_sent + 2 ^ 32 - 1)) (u32 (res.num_row + 1))
            e in
        omega (arith, c.small, c.held, c.some_rows, c.last);
  },
  refl,
  refl,
)

-- Take a result of less than 2 ^ 32 - 99 rows whose window lies within its rows and is not empty at the start if
-- there are rows, with the next row in the window or just behind it. Whatever the server and the network do,
-- when `fourd_next_row` returns 1 the cursor has moved to the next row, this row lies in the window that the
-- counters of the result then give, and the window still lies within the unchanged number of rows. Either the
-- window and the table of elements are the old ones, or the command that asks for the rows behind the window
-- succeeded, the window begins at the first row asked for, and the table is the one that this command brought. Nothing is
-- said of how many rows the server put into it.
pub fourd_next_row-IsCurrent :
    (cnx : Fourd) (res : FourdResult) (w : World) {r : Reply}
    → IsCursor res
    → Returns (run (fourd_next_row cnx res) w) r
    → r.failed ≡ false
    → IsCurrent r.result
      × (r.result.row_count ≡ res.row_count)
      × (r.result.num_row ≡ u32 (res.num_row + 1))
      × HeldRows cnx res w r.result
unfolding fourd_next_row
fourd_next_row-IsCurrent cnx res w c ends one =
    let (current, count, moved) =
      run-Always (Advances res) (fourd_next_row cnx res) w
        (elim (Bool-cases (leb res.row_count (u32 (res.num_row + 1)))) [
          | inl e ↦ rw e (λ f. absurd (cc))
          | inr e ↦ rw e (
              held_row cnx res c (leb→lt res.row_count (u32 (res.num_row + 1)) e)
                (is_behind (advance res)) refl)
        ])
        ends one in
    (current, count, moved, fourd_next_row-HeldRows cnx res w ends one)
