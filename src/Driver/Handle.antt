-- ===== src/Driver/Handle.antt =====
-- The methods of a handle: `fourd_handle_doer`, the transactions, the attributes, `fourd_handle_preparer`, `fourd_handle_closer` and
-- `pdo_4d_handle_factory`.
pub mod Refused
pub mod Done
pub mod Failed
use pdo_4d.Base.{
  ℕ, ◌^◌, Bool, true, false, Option, none, some, List, [], ◌∷◌, ltb, ◌==◌, if◌then◌else◌, eqb_ℤ,
  ltb_ℤ, ℤ, pos, negsuc, Bytes, codes, Outcome, ok, fault, atoi, to_unsigned, snprintf,
}
use pdo_4d.Client.Connect.{
  fourd_init, fourd_set_preferred_image_types, fourd_connect, fourd_close, fourd_exec,
}
use pdo_4d.Client.Statement.{fourd_prepare_statement}
use pdo_4d.Connection.{Fourd, FourdStatement}
use pdo_4d.Driver.{ErrorInfo, Dbh, Stmt, pdo_4d_error}
use pdo_4d.Proc.{Proc, ret, ◌>>=◌}
use pdo_4d.Session.Exchange.{Reply}

-- What is returned for a statement without a count, once the state of the connection was reported.
abbrev uncounted : Dbh → Dbh × ℤ
uncounted dbh = (dbh, if dbh.einfo.errcode == 0 then pos 0 else negsuc 0)

-- Behind the call of `fourd_exec`.
abbrev pub executed : Dbh → Reply → Proc (Dbh × ℤ)
executed dbh r =
    if r.failed
    then ret (pdo_4d_error (record dbh { server = r.cnx }), negsuc 0)
    else if eqb_ℤ r.cnx.updated_row (negsuc 0)
    then ret (uncounted (pdo_4d_error (record dbh { server = r.cnx })))
    else ret (record dbh { server = r.cnx }, r.cnx.updated_row)

-- The number of rows, or -1.
unfoldable pub fourd_handle_doer : Dbh → Bytes → Proc (Dbh × ℤ)
fourd_handle_doer dbh sql = fourd_exec dbh.server sql >>= executed dbh

-- 0 <= fourd_handle_doer(dbh, sql)
abbrev pub succeeds : Dbh → Bytes → Proc (Dbh × Bool)
succeeds dbh sql =
    fourd_handle_doer dbh sql >>= λ d. ret (d.0, if ltb_ℤ d.1 (pos 0) then false else true)

unfoldable pub fourd_handle_begin : Dbh → Proc (Dbh × Bool)
fourd_handle_begin dbh = succeeds dbh (codes "START")

unfoldable pub fourd_handle_commit : Dbh → Proc (Dbh × Bool)
fourd_handle_commit dbh = succeeds dbh (codes "COMMIT")

unfoldable pub fourd_handle_rollback : Dbh → Proc (Dbh × Bool)
fourd_handle_rollback dbh = succeeds dbh (codes "ROLLBACK")

-- The attributes of the driver; `other_attr` is any other.
pub data Attr : Type 0 where
  attr_charset attr_preferred_image_types other_attr : Attr

unfoldable pub pdo_4d_set_attribute : Dbh → Attr → Bytes → Dbh × Bool
pdo_4d_set_attribute dbh attr_charset val = (record dbh { charset = val }, true)
pdo_4d_set_attribute dbh attr_preferred_image_types val =
    (record dbh { server = fourd_set_preferred_image_types dbh.server (some val) }, true)
pdo_4d_set_attribute dbh other_attr val = (dbh, false)

-- Both attributes read the charset.
unfoldable pub pdo_4d_get_attribute : Dbh → Attr → Option Bytes
pdo_4d_get_attribute dbh attr_charset = some dbh.charset
pdo_4d_get_attribute dbh attr_preferred_image_types = some dbh.charset
pdo_4d_get_attribute dbh other_attr = none

-- The handle itself is freed. What `fourd_close` returns is not looked at.
unfoldable pub fourd_handle_closer : Dbh → Proc Fourd
fourd_handle_closer dbh = fourd_close dbh.server >>= λ c. ret c.0

-- What PDO's parser of placeholders gives: no change, a rewritten query, or a failure with its SQLSTATE.
pub data Parsed : Type 0 where
  unchanged : Parsed
  rewritten : Bytes → Parsed
  not_parsed : Bytes → Parsed

abbrev blank_stmt : Dbh → Bytes → Stmt
blank_stmt dbh sql = record {
  dbh = dbh;
  state = none;
  result = none;
  einfo = record { errcode = 0; errmsg = none };
  charset = dbh.charset;
  error_code = [];
  active_query_string = sql;
  row_count = pos 0;
  column_count = 0;
  names = [];
}

-- The state of the new statement. A query that is not prepared is reported, and the statement stays without a state; a rewritten query
-- is then freed twice.
abbrev pub prepare : Dbh → Bytes → Bytes → Bool → Outcome (Stmt × Bool)
prepare dbh sql text is_rewritten = elim (fourd_prepare_statement dbh.server (some text)) [
  | some state ↦ ok (record (blank_stmt dbh sql) { state = some state }, true)
  | none ↦ if is_rewritten then fault else ok (blank_stmt (pdo_4d_error dbh) sql, true)
]

-- What follows from the answer of the parser.
abbrev pub prepared : Dbh → Bytes → Parsed → Outcome (Stmt × Bool)
prepared dbh sql unchanged = prepare dbh sql sql false
prepared dbh sql (rewritten nsql) = prepare dbh sql nsql true
prepared dbh sql (not_parsed state) = ok (blank_stmt (record dbh { error_code = state }) sql, false)

unfoldable pub fourd_handle_preparer : (Bytes → Parsed) → Dbh → Bytes → Outcome (Stmt × Bool)
fourd_handle_preparer pdo_parse_params dbh sql = prepared dbh sql (pdo_parse_params sql)

-- What PDO and php.ini give: the options of the data source, with their defaults, the user and the password, and two settings.
pub record Source : Type 0 where
  pub charset : Bytes
  pub user : Bytes
  pub password : Bytes
  pub username : Option Bytes
  pub passwd : Option Bytes
  pub timeout : ℤ
  pub image_types : Option Bytes

abbrev pub or_else : Option Bytes → Bytes → Bytes
or_else none d = d
or_else (some s) d = s

-- An empty setting is no setting.
abbrev pub configure_image_types : Fourd → Option Bytes → Fourd
configure_image_types server none = server
configure_image_types server (some []) = server
configure_image_types server (some (c ∷ cs)) =
    fourd_set_preferred_image_types server (some (c ∷ cs))

abbrev pub configured : Source → Fourd
configured s =
    configure_image_types
      (record fourd_init { timeout = if ltb_ℤ (pos 0) s.timeout then s.timeout else pos 30 })
      s.image_types

-- `socket_connect_timeout` is given the host and the port of the data source.
unfoldable pub pdo_4d_handle_factory : (Fourd → Proc (Fourd × ℕ)) → Source → Proc (Dbh × Bool)
pdo_4d_handle_factory socket_connect_timeout s =
    fourd_connect socket_connect_timeout (configured s) (or_else s.username s.user)
      (some (or_else s.passwd s.password))
    >>= λ c.
        let dbh : Dbh = record {
          server = c.0;
          einfo = record { errcode = 0; errmsg = none };
          charset = s.charset;
          error_code = codes "00000";
          has_methods = false;
          thrown = false;
        } in
        if c.1 == 0
        then ret (record dbh { has_methods = true }, true)
        else ret (record (pdo_4d_error dbh) { has_methods = true }, false)
