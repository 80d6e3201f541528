-- ===== src/Header.antt =====
-- lib4d_sql/fourd_interne.c: the response header. `Field` is `get`, `Status` is `_get_status`, `Aliases`
-- is `_alias_str_replace` and the split into column names, and `Response` is `traite_header_response`.
pub mod Field
pub mod Status
pub mod Aliases
pub mod Response
