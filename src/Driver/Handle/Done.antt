-- ===== src/Driver/Handle/Done.antt =====
-- A statement that changes rows, through the driver.
use pdo_4d.Base.{
  ◌≡◌, refl, false, some, [], ◌∷◌, ◌++◌, eqb_ℤ, ℤ, negsuc, Bytes, length, le_value, signed64, ok,
}
use pdo_4d.Client.Connect.{fourd_exec}
use pdo_4d.Connection.{Fourd, FourdResult, blank_result}
use pdo_4d.Driver.{Dbh}
use pdo_4d.Driver.Handle.{executed, fourd_handle_doer}
use pdo_4d.FourdType.{update_count}
use pdo_4d.MultiQuery.{is_multi_query}
use pdo_4d.Proc.Refine.{serve}
use pdo_4d.Proc.Yields.{serve-bind}
use pdo_4d.Session.Exchange.{reply_of, clear_atrr_cnx}
use pdo_4d.Session.Message.{statement_message}
use pdo_4d.Session.Query.{no_count}
use pdo_4d.Session.Served.{IsResponse, query-update_count}

-- The connection behind such a statement.
abbrev pub counted : Fourd → FourdResult → ℤ → Fourd
counted cnx t n = record ((reply_of (no_count (clear_atrr_cnx cnx)) (t, 0)).cnx) { updated_row = n }

executed-counted :
    (dbh : Dbh) (cnx : Fourd) (t : FourdResult) (n : ℤ) (rest : Bytes)
    → eqb_ℤ n (negsuc 0) ≡ false
    → serve (executed dbh (record { cnx = counted cnx t n; result = t; failed = false })) rest
      ≡ some
          (record { value = (record dbh { server = counted cnx t n }, n); rest = rest; sent = [] })
unfolding serve
executed-counted dbh cnx t n rest e = rw e refl

-- Take a single statement whose message can be built, and a response whose header announces an update count other than -1. Over
-- the byte stream the driver sends the one message, takes exactly the header and the eight bytes of the count, and returns the count.
pub fourd_handle_doer-update_count :
    (dbh : Dbh) (sql msg h count rest : Bytes) (t : FourdResult)
    → is_multi_query (some sql) ≡ false
    → statement_message 3 sql dbh.server.preferred_image_types ≡ ok msg
    → IsResponse blank_result h (t, 0)
    → t.result_type ≡ update_count
    → length count ≡ 8
    → eqb_ℤ (signed64 (le_value count)) (negsuc 0) ≡ false
    → serve (fourd_handle_doer dbh sql) (h ++ (count ++ rest))
      ≡ some (record {
        value = (
          record dbh { server = counted dbh.server t (signed64 (le_value count)) },
          signed64 (le_value count),
        );
        rest = rest;
        sent = msg ∷ [];
      })
unfolding fourd_handle_doer fourd_exec
fourd_handle_doer-update_count dbh sql msg h count rest t single m r u l other =
    serve-bind (fourd_exec dbh.server sql) (executed dbh) (h ++ (count ++ rest))
      (query-update_count dbh.server 3 sql blank_result dbh.server.preferred_image_types msg h count
        rest t single m r u l)
      (executed-counted dbh dbh.server t (signed64 (le_value count)) rest other)
