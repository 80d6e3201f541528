-- ===== src/Session/Linked.antt =====
-- The commands of the protocol keep this: what counts as connected has an open socket.
pub mod Queries
use pdo_4d.Base.{
  ℕ, ◌+◌, ◌-◌, ◌^◌, ◌≡◌, refl, sym, ◌∙◌, arith, Bool, true, false, Option, some, List, [], ◌∷◌,
  ◌==◌, Bytes,
}
use pdo_4d.Connection.{Element, Fourd, FourdResult, blank_result}
use pdo_4d.FourdType.{ResultType, unknow, update_count, result_set}
use pdo_4d.Header.Response.{traite_header_response}
use pdo_4d.Params.{serialize_params}
use pdo_4d.Proc.{Proc, ret, pure, ◌>>=◌}
use pdo_4d.Proc.Keeps.{
  Keeps, Keeps-any, Keeps-bind, Keeps-after-Silent, Keeps-if, Silent, Silent-if, pure-Silent,
}
use pdo_4d.Receive.{socket_receiv_header, socket_receiv_data, socket_receiv_update_count}
use pdo_4d.Receive.Silent.{ReadHeader, socket_receiv_header-ReadHeader, socket_receiv_data-Silent}
use pdo_4d.Session.Control.{command, login, close_statement}
use pdo_4d.Session.Exchange.{
  Reply, readable, is_settled, answer, clear_atrr_cnx, socket_disconnect, socket_send, receiv_check,
  valid_query,
}
use pdo_4d.Session.Fetch.{u32, next_first, next_last, fetch_rows, fetch_result}
use pdo_4d.Session.Message.{
  login_message, statement_message, close_message, fetch_message, param_message,
}
use pdo_4d.Session.Query.{no_count, receive_by_type, receive_result, send_query, query, query_param}

-- `o` is whether the socket is open.
abbrev pub Linked : Bool → Fourd → Type 0
Linked o cnx = cnx.connected ≡ true → o ≡ true

abbrev pub LinkedReply : Bool → Reply → Type 0
LinkedReply o r = Linked o r.cnx

pub socket_disconnect-Linked : (o : Bool) (cnx : Fourd) → Keeps Linked o (socket_disconnect cnx)
unfolding socket_disconnect
socket_disconnect-Linked o cnx = λ e. absurd (cc)

abbrev pub sent_from : Fourd → Bool → Proc Fourd
sent_from cnx true = ret cnx
sent_from cnx false = socket_disconnect cnx

sent_from-Linked :
    (o : Bool) (cnx : Fourd)
    → Linked o cnx
    → (b : Bool) → (o ≡ false → b ≡ false)
    → Keeps Linked o (sent_from cnx b)
sent_from-Linked o cnx l true e = l
sent_from-Linked o cnx l false e = socket_disconnect-Linked o cnx

pub socket_send-Linked :
    (o : Bool) (cnx : Fourd) (msg : Bytes) → Linked o cnx → Keeps Linked o (socket_send cnx msg)
unfolding socket_send socket_disconnect
socket_send-Linked o cnx msg l = sent_from-Linked o cnx l

readable-Silent : (zeroed : Bool) (h : FourdResult × ℕ) → Silent (readable zeroed h)
readable-Silent true h = tt
readable-Silent false h = Silent-if (h.1 == 0) _ _ (Silent-if (is_settled h.0.header) _ _ tt tt) tt

answer-Linked :
    (zeroed o : Bool) (cnx : Fourd) (h : FourdResult × ℕ)
    → Linked o cnx
    → Keeps LinkedReply o (answer zeroed cnx h)
answer-Linked zeroed o cnx h l =
    Keeps-after-Silent LinkedReply o (readable zeroed h) _ (readable-Silent zeroed h) λ s.
      Keeps-after-Silent LinkedReply o (pure (traite_header_response s)) _
        (pure-Silent (traite_header_response s)) (λ t. l)

pub receiv_check-Linked :
    (zeroed o : Bool) (cnx : Fourd) (state : FourdResult)
    → Linked o cnx
    → Keeps LinkedReply o (receiv_check zeroed cnx state)
unfolding receiv_check
receiv_check-Linked zeroed o cnx state l =
    Keeps-bind (ReadHeader o) LinkedReply o (socket_receiv_header state) (answer zeroed cnx)
      (socket_receiv_header-ReadHeader o state)
      λ o' h r. answer-Linked zeroed o' cnx h (λ e. r.0 ∙ l e)

-- What the commands without a result need: a value comes only from an open socket.
abbrev Opened : {A : Type 0} → Bool → A → Type 0
Opened o a = o ≡ true

answer-Opened :
    (o : Bool) (cnx : Fourd) (h : FourdResult × ℕ)
    → (o ≡ false → h.1 ≡ 1)
    → Keeps Opened o (answer false cnx h)
answer-Opened true cnx h unended =
    Keeps-after-Silent Opened true (readable false h) _ (readable-Silent false h) λ s.
      Keeps-after-Silent Opened true (pure (traite_header_response s)) _
        (pure-Silent (traite_header_response s)) (λ t. refl)
answer-Opened false cnx h unended = let one : h.1 ≡ 1 = unended refl in rw one tt

command-Opened : (o : Bool) (cnx : Fourd) (msg : Bytes) → Keeps Opened o (command cnx msg)
unfolding receiv_check
command-Opened o cnx msg =
    Keeps-bind (λ o' c. Unit) Opened o (socket_send (clear_atrr_cnx cnx) msg) _
      (Keeps-any o (socket_send (clear_atrr_cnx cnx) msg))
      λ o' c sent.
        Keeps-bind (ReadHeader o') Opened o' (socket_receiv_header blank_result) (answer false c)
          (socket_receiv_header-ReadHeader o' blank_result)
          λ o'' h r. answer-Opened o'' c h (λ e. r.1 (sym r.0 ∙ e))

pub login-Opened :
    (o : Bool) (cnx : Fourd) (id_cnx : ℕ) (user pwd : Bytes) (image : Option Bytes)
    → Keeps Opened o (login cnx id_cnx user pwd image)
unfolding login
login-Opened o cnx id_cnx user pwd image =
    Keeps-after-Silent Opened o (pure (login_message id_cnx user pwd image)) _
      (pure-Silent (login_message id_cnx user pwd image)) (λ msg. command-Opened o cnx msg)

pub close_statement-Opened :
    (o : Bool) (cnx : Fourd) (res : FourdResult) (id_cmd : ℕ)
    → Keeps Opened o (close_statement cnx res id_cmd)
unfolding close_statement
close_statement-Opened o cnx res id_cmd =
    command-Opened o cnx (close_message id_cmd res.id_statement)
