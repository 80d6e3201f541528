-- ===== src/Driver/Handle/Refused.antt =====
-- A request that holds a second statement.
use pdo_4d.Base.{ℕ, ◌^◌, ◌-◌, true, Option, some, ◌≡◌, refl, negsuc, Bytes, codes, length, ◌<◌}
use pdo_4d.Client.Connect.{fourd_exec}
use pdo_4d.Connection.{Fourd, FourdResult, blank_result}
use pdo_4d.Driver.{Dbh, pdo_4d_error, pdo_4d_error_info}
use pdo_4d.Driver.Handle.{fourd_handle_doer}
use pdo_4d.MultiQuery.{is_multi_query}
use pdo_4d.MultiQuery.Context.{plain, HasSecond}
use pdo_4d.MultiQuery.Laws.{is_multi_query-HasSecond}
use pdo_4d.Proc.{ret}
use pdo_4d.Session.Exchange.{clear_atrr_cnx, valid_query}
use pdo_4d.Session.Query.{query}
use pdo_4d.SqlState.{fourd_sqlstate, sqlstate_of}

abbrev refusal : Fourd → Fourd
refusal cnx = record (clear_atrr_cnx cnx) {
  error_code = negsuc 5000;
  error_string = codes "MultiQuery not supported";
}

query_refused :
    (cnx : Fourd) (id_cmd : ℕ) (request : Bytes) (res : FourdResult) (image : Option Bytes)
    → is_multi_query (some request) ≡ true
    → query cnx id_cmd request res image
      ≡ ret (record { cnx = refusal cnx; result = res; failed = true })
unfolding query valid_query
query_refused cnx id_cmd request res image h = rw (h, query) refl

-- A request of fewer than 2 ^ 31 bytes with a second statement is refused without any message to the server: the driver returns -1, with
-- the SQLSTATE 0LP01, and with -5001 as an unsigned number and its text in the error info.
pub fourd_handle_doer_refuses :
    (dbh : Dbh) (sql : Bytes)
    → length sql < 2 ^ 31
    → HasSecond 0 0 plain sql
    → (dbh' : Dbh) × (fourd_handle_doer dbh sql ≡ ret (dbh', negsuc 0))
      × (dbh'.error_code ≡ codes "0LP01")
      × (dbh'.einfo
          ≡ record { errcode = 2 ^ 32 - 5001; errmsg = some (codes "MultiQuery not supported") })
unfolding fourd_handle_doer fourd_exec pdo_4d_error pdo_4d_error_info fourd_sqlstate sqlstate_of
fourd_handle_doer_refuses dbh sql small h = (
  pdo_4d_error (record dbh { server = refusal dbh.server }),
  rw
      (
        query_refused dbh.server 3 sql blank_result dbh.server.preferred_image_types
            ((is_multi_query-HasSecond sql small).1 h),
        fourd_handle_doer,
        fourd_exec,
      )
      refl,
  refl,
  refl,
)
