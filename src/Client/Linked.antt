-- ===== src/Client/Linked.antt =====
-- The calls of the library keep this: what counts as connected has an open socket.
use pdo_4d.Base.{ℕ, ◌≡◌, Bool, true, Bool-cases, inl, inr, Option, leb, ◌==◌, Bytes}
use pdo_4d.Client.Connect.{or_empty, fourd_connect, fourd_exec}
use pdo_4d.Client.Cursor.{
  Answer, as_cursor, advance, is_behind, fourd_query, fourd_next_row, fourd_close_statement,
}
use pdo_4d.Client.Statement.{params, fourd_exec_statement}
use pdo_4d.Connection.{Fourd, FourdResult, FourdStatement, blank_result}
use pdo_4d.Proc.{Proc, ret, pure}
use pdo_4d.Proc.Keeps.{
  Keeps, Keeps-any, Keeps-mono, Keeps-bind, Keeps-after-Silent, Keeps-if, pure-Silent,
}
use pdo_4d.Session.Control.{close_statement, login}
use pdo_4d.Session.Exchange.{Reply}
use pdo_4d.Session.Query.{query, query_param}
use pdo_4d.Session.Linked.{Linked, LinkedReply, login-Opened, close_statement-Opened}
use pdo_4d.Session.Linked.Queries.{query-Linked, query_param-Linked, fetch_result-Linked}

abbrev pub LinkedAnswer : Bool → Answer → Type 0
LinkedAnswer o a = Linked o a.cnx

pub fourd_exec-Linked :
    (o : Bool) (cnx : Fourd) (request : Bytes)
    → Linked o cnx
    → Keeps LinkedReply o (fourd_exec cnx request)
unfolding fourd_exec
fourd_exec-Linked o cnx request l =
    query-Linked o cnx 3 request blank_result cnx.preferred_image_types l

as_cursor-Linked : (o : Bool) (r : Reply) → LinkedReply o r → LinkedAnswer o (as_cursor r)
as_cursor-Linked o r l = elim (Bool-cases r.failed) [ inl e ↦ rw e l | inr e ↦ rw e l ]

pub fourd_query-Linked :
    (o : Bool) (cnx : Fourd) (request : Bytes)
    → Linked o cnx
    → Keeps LinkedAnswer o (fourd_query cnx request)
unfolding fourd_query
fourd_query-Linked o cnx request l =
    Keeps-bind LinkedReply LinkedAnswer o
      (query cnx 3 request blank_result cnx.preferred_image_types) (λ r. ret (as_cursor r))
      (query-Linked o cnx 3 request blank_result cnx.preferred_image_types l)
      λ o' r k. as_cursor-Linked o' r k

pub fourd_exec_statement-Linked :
    (o : Bool) (cnx : Fourd) (state : FourdStatement)
    → Linked o cnx
    → Keeps LinkedAnswer o (fourd_exec_statement cnx state)
unfolding fourd_exec_statement
fourd_exec_statement-Linked o cnx state l =
    Keeps-after-Silent LinkedAnswer o (pure (params state)) _ (pure-Silent (params state)) λ ps.
      Keeps-bind LinkedReply LinkedAnswer o
        (query_param cnx 6 state.query ps blank_result state.preferred_image_types)
        (λ r. ret (as_cursor r))
        (query_param-Linked o cnx 6 state.query ps blank_result state.preferred_image_types l)
        λ o' r k. as_cursor-Linked o' r k

pub fourd_next_row-Linked :
    (o : Bool) (cnx : Fourd) (res : FourdResult)
    → Linked o cnx
    → Keeps LinkedReply o (fourd_next_row cnx res)
unfolding fourd_next_row
fourd_next_row-Linked o cnx res l =
    Keeps-if LinkedReply o (leb (advance res).row_count (advance res).num_row) _ _ (λ e. l)
      λ e.
        Keeps-if LinkedReply o (is_behind (advance res)) _ _
          (λ e'. fetch_result-Linked o cnx (advance res) l) (λ e'. l)

pub fourd_close_statement-Linked :
    (o : Bool) (cnx : Fourd) (res : FourdResult)
    → Keeps LinkedReply o (fourd_close_statement cnx res)
unfolding fourd_close_statement
fourd_close_statement-Linked o cnx res =
    Keeps-mono (λ o' r. o' ≡ true) LinkedReply o (close_statement cnx res 7)
      (close_statement-Opened o cnx res 7) (λ o' r opened e. opened)

-- What `fourd_connect` leaves, whatever the attempt to connect did.
pub fourd_connect-Linked :
    (connect : Fourd → Proc (Fourd × ℕ)) (o : Bool) (cnx : Fourd) (user : Bytes)
    (password : Option Bytes)
    → Linked o cnx
    → Keeps (λ o' r. Linked o' r.0) o (fourd_connect connect cnx user password)
unfolding fourd_connect
fourd_connect-Linked connect o cnx user password l =
    let P : Bool → Fourd × ℕ → Type 0 = λ o' r. Linked o' r.0 in
    Keeps-if P o cnx.init _ _
      (λ e.
        Keeps-if P o cnx.connected _ _ (λ e'. l)
          λ e'.
            Keeps-bind (λ o' c. Unit) P o (connect cnx) _ (Keeps-any o (connect cnx))
              λ o' c u.
                Keeps-if P o' (c.1 == 0) _ _
                  (λ e''.
                    Keeps-bind (λ o'' r. o'' ≡ true) P o'
                      (login c.0 1 user (or_empty password) c.0.preferred_image_types) _
                      (login-Opened o' c.0 1 user (or_empty password) c.0.preferred_image_types)
                      λ o'' r opened. Keeps-if P o'' r.failed _ _ (λ f g. opened) (λ f g. opened))
                  (λ e'' g. absurd (cc)))
      (λ e. l)
