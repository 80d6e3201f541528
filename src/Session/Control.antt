-- ===== src/Session/Control.antt =====
-- `login`, `close_statement`, `logout` and `quit`: a message, and a response without data.
use pdo_4d.Base.{ℕ, false, Option, Bytes}
use pdo_4d.Connection.{Fourd, FourdResult, blank_result}
use pdo_4d.Proc.{Proc, pure, ◌>>=◌}
use pdo_4d.Session.Exchange.{Reply, clear_atrr_cnx, socket_send, receiv_check}
use pdo_4d.Session.Message.{login_message, close_message, logout_message, quit_message}

-- The part that the four commands share: their result stands on the stack.
abbrev pub command : Fourd → Bytes → Proc Reply
command cnx msg = socket_send (clear_atrr_cnx cnx) msg >>= λ c. receiv_check false c blank_result

unfoldable pub login : Fourd → ℕ → Bytes → Bytes → Option Bytes → Proc Reply
login cnx id_cnx user pwd image_type =
    pure (login_message id_cnx user pwd image_type) >>= λ msg. command cnx msg

unfoldable pub close_statement : Fourd → FourdResult → ℕ → Proc Reply
close_statement cnx res id_cmd = command cnx (close_message id_cmd res.id_statement)

unfoldable pub logout : Fourd → ℕ → Proc Reply
logout cnx id_cmd = command cnx (logout_message id_cmd)

unfoldable pub quit : Fourd → ℕ → Proc Reply
quit cnx id_cmd = command cnx (quit_message id_cmd)
