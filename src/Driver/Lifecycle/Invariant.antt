-- ===== src/Driver/Lifecycle/Invariant.antt =====
-- What holds of a handle between two calls, and that its own methods keep it.
use pdo_4d.Base.{
  ◌^◌, ◌≡◌, ◌≢◌, ◌⊎◌, inl, inr, refl, Bool, true, false, Bool-cases, none, some, Option-cases,
  eqb_ℤ, ◌==◌, ==_iff, ℤ, negsuc, Bytes, length, to_unsigned, WhenOk, WhenOk-if,
}
use pdo_4d.Client.Connect.{fourd_exec}
use pdo_4d.Client.Linked.{fourd_exec-Linked}
use pdo_4d.Connection.{Fourd}
use pdo_4d.Driver.{ErrorInfo, Dbh, Stmt, pdo_4d_error_info, pdo_4d_error}
use pdo_4d.Driver.Handle.{
  Attr, attr_charset, attr_preferred_image_types, other_attr, Parsed, unchanged, rewritten,
  not_parsed, executed, succeeds, prepare, prepared, fourd_handle_doer, fourd_handle_preparer,
  pdo_4d_set_attribute,
}
use pdo_4d.Client.Statement.{fourd_prepare_statement}
use pdo_4d.Proc.Keeps.{Keeps, Keeps-bind, Keeps-if}
use pdo_4d.Session.Exchange.{Reply}
use pdo_4d.Session.Linked.{Linked, LinkedReply}
use pdo_4d.SqlState.Laws.{length-fourd_sqlstate}

-- An error that is reported has a message.
abbrev pub HasMessage : ErrorInfo → Type 0
HasMessage e = (e.errcode ≡ 0) ⊎ (e.errmsg ≢ none)

-- A handle, with whether its socket is open.
pub record IsHandle (o : Bool) (d : Dbh) : Type 0 where
  pub linked : Linked o d.server
  pub sqlstate : length d.error_code ≡ 5
  pub message : HasMessage d.einfo

-- What is reported of any connection.
record IsReport (has_methods : Bool) (server : Fourd) : Type 0 where
  sqlstate : length (pdo_4d_error_info has_methods server).error_code ≡ 5
  message : HasMessage (pdo_4d_error_info has_methods server).einfo

pdo_4d_error_info-IsReport : (has_methods : Bool) (server : Fourd) → IsReport has_methods server
unfolding pdo_4d_error_info
pdo_4d_error_info-IsReport has_methods server =
    elim (Bool-cases (to_unsigned (2 ^ 32) server.error_code == 0)) [
      | inl e ↦ record {
        sqlstate = rw e refl;
        message = rw e (inl ((==_iff (to_unsigned (2 ^ 32) server.error_code) 0).0 e));
      }
      | inr e ↦ record {
        sqlstate = rw e (length-fourd_sqlstate server);
        message = rw e (inr (λ n. absurd (cc)));
      }
    ]

pub pdo_4d_error-IsHandle : (o : Bool) (d : Dbh) → Linked o d.server → IsHandle o (pdo_4d_error d)
unfolding pdo_4d_error
pdo_4d_error-IsHandle o d l =
    let r = pdo_4d_error_info-IsReport d.has_methods d.server in
    record { linked = l; sqlstate = r.sqlstate; message = r.message }

pub with_server-IsHandle :
    (o o' : Bool) (d : Dbh) (cnx : Fourd)
    → IsHandle o d
    → Linked o' cnx
    → IsHandle o' (record d { server = cnx })
with_server-IsHandle o o' d cnx h l = record {
  linked = l;
  sqlstate = h.sqlstate;
  message = h.message;
}

executed-IsHandle :
    (o o' : Bool) (d : Dbh) (r : Reply)
    → IsHandle o d
    → LinkedReply o' r
    → Keeps (λ o'' t. IsHandle o'' t.0) o' (executed d r)
executed-IsHandle o o' d r h l =
    let P : Bool → Dbh × ℤ → Type 0 = λ o'' t. IsHandle o'' t.0 in
    let reported = pdo_4d_error-IsHandle o' (record d { server = r.cnx }) l in
    Keeps-if P o' r.failed _ _ (λ e. reported)
      λ e.
        Keeps-if P o' (eqb_ℤ r.cnx.updated_row (negsuc 0)) _ _ (λ e'. reported)
          (λ e'. with_server-IsHandle o o' d r.cnx h l)

pub fourd_handle_doer-IsHandle :
    (o : Bool) (d : Dbh) (sql : Bytes)
    → IsHandle o d
    → Keeps (λ o' t. IsHandle o' t.0) o (fourd_handle_doer d sql)
unfolding fourd_handle_doer
fourd_handle_doer-IsHandle o d sql h =
    Keeps-bind LinkedReply (λ o' t. IsHandle o' t.0) o (fourd_exec d.server sql) (executed d)
      (fourd_exec-Linked o d.server sql h.linked) λ o' r l. executed-IsHandle o o' d r h l

-- begin, commit and rollback.
pub succeeds-IsHandle :
    (o : Bool) (d : Dbh) (sql : Bytes)
    → IsHandle o d
    → Keeps (λ o' t. IsHandle o' t.0) o (succeeds d sql)
succeeds-IsHandle o d sql h =
    Keeps-bind (λ o' t. IsHandle o' t.0) (λ o' t. IsHandle o' t.0) o (fourd_handle_doer d sql) _
      (fourd_handle_doer-IsHandle o d sql h) (λ o' t k. k)

pub set_attribute-IsHandle :
    (o : Bool) (d : Dbh) (attr : Attr) (val : Bytes)
    → IsHandle o d
    → IsHandle o (pdo_4d_set_attribute d attr val).0
unfolding pdo_4d_set_attribute
set_attribute-IsHandle o d attr_charset val h = record {
  linked = h.linked;
  sqlstate = h.sqlstate;
  message = h.message;
}
set_attribute-IsHandle o d attr_preferred_image_types val h = record {
  linked = h.linked;
  sqlstate = h.sqlstate;
  message = h.message;
}
set_attribute-IsHandle o d other_attr val h = h

-- The handle of a statement.
abbrev pub MadeRight : Bool → Stmt × Bool → Type 0
MadeRight o t = IsHandle o t.0.dbh

prepare-IsHandle :
    (o : Bool) (d : Dbh) (sql text : Bytes) (is_rewritten : Bool)
    → IsHandle o d
    → WhenOk (MadeRight o) (prepare d sql text is_rewritten)
prepare-IsHandle o d sql text is_rewritten h =
    elim (Option-cases (fourd_prepare_statement d.server (some text))) [
      | inl e ↦
          rw (e, prepare)
            (WhenOk-if (MadeRight o) is_rewritten _ _ tt (pdo_4d_error-IsHandle o d h.linked))
      | inr (s, e) ↦ rw (e, prepare) h
    ]

parsed-IsHandle :
    (o : Bool) (d : Dbh) (sql : Bytes) (p : Parsed)
    → ((state : Bytes) → p ≡ not_parsed state → length state ≡ 5)
    → IsHandle o d
    → WhenOk (MadeRight o) (prepared d sql p)
parsed-IsHandle o d sql unchanged five h = prepare-IsHandle o d sql sql false h
parsed-IsHandle o d sql (rewritten text) five h = prepare-IsHandle o d sql text true h
parsed-IsHandle o d sql (not_parsed state) five h = record {
  linked = h.linked;
  sqlstate = five state refl;
  message = h.message;
}

pub preparer-IsHandle :
    (parse : Bytes → Parsed) (o : Bool) (d : Dbh) (sql : Bytes)
    → ((state : Bytes) → parse sql ≡ not_parsed state → length state ≡ 5)
    → IsHandle o d
    → WhenOk (MadeRight o) (fourd_handle_preparer parse d sql)
unfolding fourd_handle_preparer
preparer-IsHandle parse o d sql five h = parsed-IsHandle o d sql (parse sql) five h
