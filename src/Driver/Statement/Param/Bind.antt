-- ===== src/Driver/Statement/Param/Bind.antt =====
-- Binding through the hook.
use pdo_4d.Base.{ℕ, ◌*◌, le_bytes, ◌^◌, ◌<◌, ◌≡◌, some, length, Bytes}
use pdo_4d.Client.Statement.Bindable.{Bindable}
use pdo_4d.Connection.{Value, null_pointer, fixed, string, blob}
use pdo_4d.Driver.Statement.Param.{
  ParamType, param_null, param_int, param_lob, param_str, Zval, is_null, is_long, is_double,
  is_string, is_resource,
}
use pdo_4d.FourdType.{FourdType, vk_string, vk_long, vk_real, vk_blob}

-- What a value of PHP is to become under a type of PDO: null, a 32-bit integer, a double, or a text in the encoding of the server, whose number of
-- units stands beside it; a stream becomes a blob of its contents.
pub data Becomes (to_server : Bytes → Bytes) : ParamType → Zval → FourdType → Value → Type 0 where
  null_param : (z : Zval) → Becomes to_server param_null z vk_string null_pointer
  null : Becomes to_server param_str is_null vk_string null_pointer
  integer : (n : ℕ) → Becomes to_server param_int (is_long n) vk_long (fixed (le_bytes 4 n))
  long : (n : ℕ) → Becomes to_server param_str (is_long n) vk_long (fixed (le_bytes 4 n))
  double :
      (bs : Bytes) → 8 ≡ length bs → Becomes to_server param_str (is_double bs) vk_real (fixed bs)
  text :
      (s : Bytes) (n : ℕ)
      → n < 2 ^ 30
      → n * 2 ≡ length (to_server s)
      → Becomes to_server param_str (is_string s) vk_string (string n (to_server s))
  stream :
      (s contents : Bytes)
      → Becomes to_server param_lob
          (is_resource s (some contents))
          vk_blob
          (blob (length contents) contents)
