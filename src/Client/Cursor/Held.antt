-- ===== src/Client/Cursor/Held.antt =====
-- The rows that the client holds behind a step of the cursor: those it held, or those of the page it asked for.
use pdo_4d.Base.{ℕ, ◌+◌, ◌-◌, ◌^◌, ◌*◌, ◌≡◌, refl, true, false, leb, Bool-cases, inl, inr}
use pdo_4d.Client.Cursor.{advance, is_behind, fourd_next_row}
use pdo_4d.Connection.{Fourd, FourdResult, blank_result}
use pdo_4d.Proc.{Proc, World, run, ret}
use pdo_4d.Proc.Always.{Always-if, Returns, run-Always, run-bind}
use pdo_4d.Session.Exchange.{Reply, clear_atrr_cnx}
use pdo_4d.Session.Fetch.{u32, fetch_rows, fetch_result, next_first, next_last, overruns}

-- The number of rows asked for.
abbrev pub sent_rows : FourdResult → ℕ
sent_rows res = u32 (next_last res + 2 ^ 32 - next_first res + 1)

-- The command that asks for the page behind the window.
abbrev pub next_page : Fourd → FourdResult → Proc Reply
next_page cnx res =
    fetch_rows (clear_atrr_cnx cnx) 123 res (next_first res) (next_last res) (record blank_result {
      first_row = next_first res;
      row_count_sent = sent_rows res;
      nb_column = res.nb_column;
      columns = res.columns;
    })

-- The elements behind a step of the cursor in the world `w`.
pub data HeldRows (cnx : Fourd) (res : FourdResult) (w : World) (new : FourdResult) : Type 0 where
  kept :
      new.first_row ≡ res.first_row
      → new.row_count_sent ≡ res.row_count_sent
      → new.elmt ≡ res.elmt
      → HeldRows cnx res w new
  fetched :
      (page : Reply)
      → Returns (run (next_page cnx (advance res)) w) page
      → page.failed ≡ false
      → new.first_row ≡ next_first res
      → new.elmt ≡ page.result.elmt
      → HeldRows cnx res w new

-- The page that the command brought.
abbrev Brings : FourdResult → Reply → Reply → Type 0
Brings res page r =
    r.failed ≡ false
    → (page.failed ≡ false)
      × (r.result.first_row ≡ next_first res)
      × (r.result.elmt ≡ page.result.elmt)

fetch_result-page :
    (cnx : Fourd) (res : FourdResult) (w : World) {r : Reply}
    → Returns (run (fetch_result cnx res) w) r
    → r.failed ≡ false
    → (page : Reply) × Returns (run (next_page cnx res) w) page
      × (page.failed ≡ false)
      × (r.result.first_row ≡ next_first res)
      × (r.result.elmt ≡ page.result.elmt)
unfolding fetch_result
fetch_result-page cnx res w ends one =
    let (page, later, came, swapped) = run-bind (next_page cnx res) _ w ends in
    let (good, first, same) =
      run-Always (Brings res page) _ later
        (elim (Bool-cases page.failed) [
          | inl e ↦ rw e (λ f. absurd (cc))
          | inr e ↦ rw e (
              Always-if (Brings res page)
                (overruns res.elmt (u32 (page.result.nb_column * page.result.row_count_sent))) _ _
                tt (λ f. (e, refl, refl)))
        ])
        swapped one in
    (page, came, good, first, same)

abbrev Steps : Fourd → FourdResult → World → Reply → Type 0
Steps cnx res w r = r.failed ≡ false → HeldRows cnx res w r.result

pub fourd_next_row-HeldRows :
    (cnx : Fourd) (res : FourdResult) (w : World) {r : Reply}
    → Returns (run (fourd_next_row cnx res) w) r
    → r.failed ≡ false
    → HeldRows cnx res w r.result
unfolding fourd_next_row
fourd_next_row-HeldRows cnx res w ends one =
    elim (Bool-cases (leb res.row_count (u32 (res.num_row + 1)))) [
      | inl e ↦
          run-Always (Steps cnx res w)
            (ret (record { cnx = cnx; result = advance res; failed = true })) w (λ f. absurd (cc))
            (rw e at ends) one
      | inr e ↦ elim (Bool-cases (is_behind (advance res))) [
        | inl b ↦
            let (page, came, good, first, same) =
              fetch_result-page cnx (advance res) w (rw (e, b) at ends) one in
            HeldRows.fetched page came good first same
        | inr b ↦
            run-Always (Steps cnx res w)
              (ret (record { cnx = cnx; result = advance res; failed = false })) w
              (λ f. HeldRows.kept refl refl refl) (rw (e, b) at ends) one
      ]
    ]
