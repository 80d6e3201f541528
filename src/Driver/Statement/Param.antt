-- ===== src/Driver/Statement/Param.antt =====
-- `pdo_4d_stmt_param_hook`: a value of PHP becomes a parameter of the statement.
pub mod Bind
use pdo_4d.Base.{
  ℕ, ◌/◌, Bool, true, false, Option, none, some, if◌then◌else◌, ltb_ℤ, ℤ, pos, negsuc, Bytes, codes,
  length, le_bytes, Outcome, ok, fault, ◌>>=◌,
}
use pdo_4d.Client.Statement.{fourd_bind_param}
use pdo_4d.Connection.{FourdStatement, Value, null_pointer, fixed, string, blob}
use pdo_4d.Driver.{Stmt}
use pdo_4d.FourdType.{FourdType, vk_string, vk_blob, vk_long, vk_real}

-- A value of PHP. A `zend_long` is its bit pattern and a `double` its eight bytes; a resource is the string that PHP converts it to
-- with the contents of its stream, if it is one, and any other value is the string that PHP converts it to.
pub data Zval : Type 0 where
  is_null : Zval
  is_long : ℕ → Zval
  is_double : Bytes → Zval
  is_string : Bytes → Zval
  is_resource : Bytes → Option Bytes → Zval
  is_other : Bytes → Zval

-- PDO_PARAM_TYPE(param->param_type)
pub data ParamType : Type 0 where
  param_stmt param_null param_int param_lob param_str : ParamType

pub data Event : Type 0 where
  evt_normalize evt_exec_pre evt_other : Event

pub record Param : Type 0 where
  pub paramno : ℤ
  pub is_param : Bool
  pub param_type : ParamType
  pub parameter : Zval

-- The number of a parameter that is not negative.
abbrev pub index : ℤ → ℕ
index (pos n) = n
index (negsuc n) = 0

-- A string whose length is the number of its 16-bit units.
abbrev bound_string : Bytes → Outcome (Option (FourdType × Value))
bound_string val = ok (some (vk_string, string (length val / 2) val))

-- The type and the value that the parameter is bound with; `none` where the function returns 0 without a call of
-- `fourd_bind_param`. `to_server` is PHP's conversion to UTF-16LE from the charset of the statement.
unfoldable pub bound_value : (Bytes → Bytes) → Zval → Outcome (Option (FourdType × Value))
bound_value to_server is_null = ok (some (vk_string, null_pointer))
bound_value to_server (is_long n) = ok (some (vk_long, fixed (le_bytes 4 n)))
bound_value to_server (is_double bs) = ok (some (vk_real, fixed bs))
bound_value to_server (is_string s) = bound_string (to_server s)
bound_value to_server (is_resource s contents) = bound_string (to_server s)
bound_value to_server (is_other s) = bound_string (to_server s)

-- `Z_LVAL` of a value of another type reads another member of the union.
abbrev bound_long : Zval → Outcome (Option (FourdType × Value))
bound_long (is_long n) = ok (some (vk_long, fixed (le_bytes 4 n)))
bound_long _ = fault

abbrev bound_lob : (Bytes → Bytes) → Zval → Outcome (Option (FourdType × Value))
bound_lob to_server (is_resource s none) = ok none
bound_lob to_server (is_resource s (some contents)) =
    ok (some (vk_blob, blob (length contents) contents))
bound_lob to_server z = bound_value to_server z

abbrev pub bound_param : (Bytes → Bytes) → ParamType → Zval → Outcome (Option (FourdType × Value))
bound_param to_server param_stmt z = ok none
bound_param to_server param_null z = ok (some (vk_string, null_pointer))
bound_param to_server param_int z = bound_long z
bound_param to_server param_lob z = bound_lob to_server z
bound_param to_server param_str z = bound_value to_server z

abbrev bind : (Bytes → Bytes) → Stmt → FourdStatement → Param → Outcome (Stmt × Bool)
bind to_server stmt state param = bound_param to_server param.param_type param.parameter >>= λ b.
    elim b [
      | none ↦ ok (stmt, false)
      | some v ↦ fourd_bind_param state (index param.paramno) v.0 v.1 >>= λ s.
          ok (record stmt { state = some s }, true)
    ]

-- A negative number of a parameter.
abbrev is_negative : ℤ → Bool
is_negative n = ltb_ℤ n (pos 0)

unfoldable pub pdo_4d_stmt_param_hook :
    (Bytes → Bytes) → Stmt → Param → Event → Outcome (Stmt × Bool)
unfolding bound_value
pdo_4d_stmt_param_hook to_server stmt param event = elim stmt.state [
  | none ↦ ok (stmt, true)
  | some state ↦ elim event [
    | evt_other ↦ ok (stmt, true)
    | evt_normalize ↦
        if is_negative param.paramno
        then ok (record stmt { error_code = codes "HY093" }, false)
        else ok (stmt, true)
    | evt_exec_pre ↦
        if is_negative param.paramno
        then ok (record stmt { error_code = codes "HY093" }, false)
        else if param.is_param
        then bind to_server stmt state param
        else ok (stmt, true)
  ]
]
