-- ===== src/Client/Statement.antt =====
-- Prepared statements: `fourd_prepare_statement`, `fourd_bind_param` and `fourd_exec_statement`.
pub mod Bindable
pub mod Binding
pub mod Executed
use pdo_4d.Base.{
  ℕ, ◌+◌, ◌-◌, ◌^◌, ◌%◌, Bool, true, false, Option, none, some, List, [], ◌∷◌, ◌++◌, ltb, leb,
  if◌then◌else◌, Bytes, snprintf, length, take, replicate, set, Outcome, ok, fault, ◌>>=◌,
}
use pdo_4d.Client.Cursor.{Answer, as_cursor}
use pdo_4d.Connection.{
  Element, Value, Fourd, FourdStatement, null_pointer, blank_element, blank_result, max_header_size,
}
use pdo_4d.FourdType.{FourdType}
use pdo_4d.Params.{copy}
use pdo_4d.Proc.{Proc, ret, pure}
use pdo_4d.Proc
use pdo_4d.Session.Exchange.{Reply}
use pdo_4d.Session.Fetch.{u32}
use pdo_4d.Session.Query.{query_param}

-- `none` for the null pointer.
unfoldable pub fourd_prepare_statement : Fourd → Option Bytes → Option FourdStatement
fourd_prepare_statement cnx query =
    if cnx.connected
    then elim query [
      | none ↦ none
      | some text ↦ some (record {
        query = snprintf max_header_size text;
        nb_element = 0;
        nb_alloc_element = 5;
        elmt = replicate 5 (some blank_element);
        preferred_image_types = cnx.preferred_image_types;
      })
    ]
    else none

-- Whether the table of elements is too small, and its new size.
abbrev pub new_alloc : FourdStatement → ℕ → ℕ
new_alloc state num_param =
    if leb state.nb_alloc_element num_param then u32 (num_param + 5) else state.nb_alloc_element

abbrev pub realloc : ℕ → List (Option Element) → List (Option Element)
realloc n elmt = take n (elmt ++ replicate (n - length elmt) none)

-- The element of a value; `null_pointer` is the null pointer.
unfoldable pub param_element : FourdType → Value → Outcome Element
param_element t null_pointer = ok (record { type = t; is_null = true; value = null_pointer })
param_element t v = copy t v >>= λ c. ok (record { type = t; is_null = false; value = c })

unfoldable pub fourd_bind_param : FourdStatement → ℕ → FourdType → Value → Outcome FourdStatement
unfolding param_element
fourd_bind_param state num_param t val =
    let alloc = new_alloc state num_param in
    let elmt =
      if leb state.nb_alloc_element num_param then realloc alloc state.elmt else state.elmt in
    let nb = if leb state.nb_element num_param then u32 (num_param + 1) else state.nb_element in
    if ltb num_param (length elmt)
    then (param_element t val >>= λ e. ok (record state {
      nb_element = nb;
      nb_alloc_element = alloc;
      elmt = set elmt num_param (some e);
    }))
    else fault

-- The parameters that are sent: reading one that was never set is undefined.
unfoldable pub bound_elements : List (Option Element) → Outcome (List Element)
bound_elements [] = ok []
bound_elements (none ∷ es) = fault
bound_elements (some e ∷ es) = bound_elements es >>= λ rest. ok (e ∷ rest)

unfoldable pub params : FourdStatement → Outcome (List Element)
unfolding bound_elements
params state =
    if leb state.nb_element (length state.elmt)
    then bound_elements (take state.nb_element state.elmt)
    else fault

unfoldable pub fourd_exec_statement : Fourd → FourdStatement → Proc Answer
unfolding params
fourd_exec_statement cnx state = Proc.◌>>=◌ (Proc.pure (params state)) λ ps.
    Proc.◌>>=◌ (query_param cnx 6 state.query ps blank_result state.preferred_image_types)
      λ r. ret (as_cursor r)
