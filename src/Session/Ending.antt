-- ===== src/Session/Ending.antt =====
-- The commands without a result end, whatever the network does.
use pdo_4d.Base.{ℕ, Bool, true, false, Option, ◌==◌, Bytes}
use pdo_4d.Connection.{Fourd, FourdResult, blank_result}
use pdo_4d.Header.Response.{traite_header_response}
use pdo_4d.Proc.{pure}
use pdo_4d.Proc.Hangs.{ByBytes, ByBytes-bind, ByBytes-if, pure-ByBytes}
use pdo_4d.Receive.{socket_receiv_header}
use pdo_4d.Receive.Ending.{socket_receiv_header-ByBytes}
use pdo_4d.Session.Control.{command, login, logout, quit, close_statement}
use pdo_4d.Session.Exchange.{
  readable, is_settled, answer, clear_atrr_cnx, socket_disconnect, socket_send, receiv_check,
}
use pdo_4d.Session.Linked.{sent_from}
use pdo_4d.Session.Message.{login_message, logout_message, quit_message, close_message}

readable-ByBytes : (zeroed : Bool) (h : FourdResult × ℕ) → ByBytes (readable zeroed h)
readable-ByBytes true h = tt
readable-ByBytes false h =
    ByBytes-if (h.1 == 0) _ _ (ByBytes-if (is_settled h.0.header) _ _ tt tt) tt

receiv_check-ByBytes :
    (zeroed : Bool) (cnx : Fourd) (state : FourdResult) → ByBytes (receiv_check zeroed cnx state)
unfolding receiv_check
receiv_check-ByBytes zeroed cnx state =
    ByBytes-bind (socket_receiv_header state) (answer zeroed cnx)
      (socket_receiv_header-ByBytes state)
      λ h. ByBytes-bind (readable zeroed h) _ (readable-ByBytes zeroed h) λ s.
        ByBytes-bind (pure (traite_header_response s)) _ (pure-ByBytes (traite_header_response s))
          (λ t. tt)

sent_from-ByBytes : (cnx : Fourd) (b : Bool) → ByBytes (sent_from cnx b)
unfolding socket_disconnect
sent_from-ByBytes cnx true = tt
sent_from-ByBytes cnx false = tt

command-ByBytes : (cnx : Fourd) (msg : Bytes) → ByBytes (command cnx msg)
unfolding socket_send socket_disconnect
command-ByBytes cnx msg =
    ByBytes-bind (socket_send (clear_atrr_cnx cnx) msg) _ (sent_from-ByBytes (clear_atrr_cnx cnx))
      (λ c. receiv_check-ByBytes false c blank_result)

pub login-ByBytes :
    (cnx : Fourd) (id_cnx : ℕ) (user pwd : Bytes) (image : Option Bytes)
    → ByBytes (login cnx id_cnx user pwd image)
unfolding login
login-ByBytes cnx id_cnx user pwd image =
    ByBytes-bind (pure (login_message id_cnx user pwd image)) _
      (pure-ByBytes (login_message id_cnx user pwd image)) (λ msg. command-ByBytes cnx msg)

pub logout-ByBytes : (cnx : Fourd) (id_cmd : ℕ) → ByBytes (logout cnx id_cmd)
unfolding logout
logout-ByBytes cnx id_cmd = command-ByBytes cnx (logout_message id_cmd)

pub quit-ByBytes : (cnx : Fourd) (id_cmd : ℕ) → ByBytes (quit cnx id_cmd)
unfolding quit
quit-ByBytes cnx id_cmd = command-ByBytes cnx (quit_message id_cmd)

pub close_statement-ByBytes :
    (cnx : Fourd) (res : FourdResult) (id_cmd : ℕ) → ByBytes (close_statement cnx res id_cmd)
unfolding close_statement
close_statement-ByBytes cnx res id_cmd = command-ByBytes cnx (close_message id_cmd res.id_statement)
