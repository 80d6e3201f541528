-- ===== src/Tests/Handles.antt =====
-- The driver's methods.
use pdo_4d.Base.{◌-◌, ◌^◌, ◌≡◌, refl, arith, true, false, none, some, [], ◌∷◌, codes, pos, negsuc}
use pdo_4d.Connection.{Element, Fourd, FourdStatement, fixed}
use pdo_4d.Driver.{Dbh, Stmt}
use pdo_4d.Driver.Handle.{fourd_handle_doer}
use pdo_4d.Driver.Handle.Refused.{fourd_handle_doer_refuses}
use pdo_4d.FourdType.{vk_long}
use pdo_4d.MultiQuery.{is_multi_query, scan, switch}
use pdo_4d.MultiQuery.Laws.{is_multi_query-HasSecond}
use pdo_4d.Proc.{ret}

abbrev server : Fourd
server = record {
  socket = some 5;
  init = true;
  connected = true;
  status = 0;
  error_code = negsuc 5000;
  error_string = [];
  updated_row = pos 0;
  preferred_image_types = some (codes "jpg");
  timeout = pos 30;
}

abbrev dbh : Dbh
dbh = record {
  server = server;
  einfo = record { errcode = 0; errmsg = none };
  charset = codes "UTF-8";
  error_code = codes "00000";
  has_methods = true;
  thrown = false;
}

scanned : is_multi_query (some (codes "A;B")) ≡ true
unfolding is_multi_query scan switch
scanned = refl

fourd_handle_doer_refuses_example :
    (dbh' : Dbh) × (fourd_handle_doer dbh (codes "A;B") ≡ ret (dbh', negsuc 0))
    × (dbh'.error_code ≡ codes "0LP01")
    × (dbh'.einfo
        ≡ record { errcode = 2 ^ 32 - 5001; errmsg = some (codes "MultiQuery not supported") })
fourd_handle_doer_refuses_example =
    fourd_handle_doer_refuses dbh (codes "A;B") (omega arith)
      ((is_multi_query-HasSecond (codes "A;B") (omega arith)).0 scanned)

abbrev seven : Element
seven = record { type = vk_long; is_null = false; value = fixed (7 ∷ 0 ∷ 0 ∷ 0 ∷ []) }

-- A statement with one parameter, in a table of one.
abbrev state : FourdStatement
state = record {
  query = codes "A ?, ?";
  nb_element = 1;
  nb_alloc_element = 1;
  elmt = some seven ∷ [];
  preferred_image_types = none;
}

abbrev stmt : Stmt
stmt = record {
  dbh = dbh;
  state = some state;
  result = none;
  einfo = record { errcode = 0; errmsg = none };
  charset = codes "UTF-8";
  error_code = [];
  active_query_string = codes "A ?, ?";
  row_count = pos 0;
  column_count = 0;
  names = [];
}
