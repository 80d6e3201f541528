-- ===== src/Connection.antt =====
-- lib4d_sql/fourd.h: the state of a connection, of a result, and of a statement.
-- A `FOURD_RESULT` is passed together with the one connection that its `cnx` points to.
use pdo_4d.Base.{ℕ, Bool, false, Option, none, List, [], ℤ, pos, Bytes}
use pdo_4d.FourdType.{FourdType, vk_unknow, ResultType, unknow}

abbrev pub fourd_ok : ℕ
fourd_ok = 0

abbrev pub fourd_error : ℕ
fourd_error = 1

abbrev pub max_header_size : ℕ
max_header_size = 1048576

abbrev pub error_string_length : ℕ
error_string_length = 2048

-- The contents behind `pValue`. A number of fixed size is the list of its bytes in memory, and an
-- `int` field is its bit pattern.
pub data Value : Type 0 where
  null_pointer : Value
  fixed : Bytes → Value
  timestamp : Bytes → ℕ → ℕ → Bytes → Value
  float : Bytes → ℕ → Bytes → Bytes → Value
  string : ℕ → Bytes → Value
  blob : ℕ → Bytes → Value
  image : ℕ → Bytes → Value

-- FOURD_ELEMENT
pub record Element : Type 0 where
  pub type : FourdType
  pub is_null : Bool
  pub value : Value

-- FOURD_COLUMN
pub record Column : Type 0 where
  pub s_type : Bytes
  pub type : FourdType
  pub s_column_name : Bytes

-- FOURD
pub record Fourd : Type 0 where
  pub socket : Option ℕ
  pub init : Bool
  pub connected : Bool
  pub status : ℕ
  pub error_code : ℤ
  pub error_string : Bytes
  pub updated_row : ℤ
  pub preferred_image_types : Option Bytes
  pub timeout : ℤ

-- FOURD_RESULT. `columns` and `elmt` are `none` for the null pointer.
pub record FourdResult : Type 0 where
  pub header : Bytes
  pub header_size : ℕ
  pub status : ℕ
  pub error_code : ℤ
  pub error_string : Bytes
  pub result_type : ResultType
  pub id_statement : ℤ
  pub updateability : Bool
  pub row_count : ℕ
  pub row_count_sent : ℕ
  pub first_row : ℕ
  pub nb_column : ℕ
  pub columns : Option (List Column)
  pub elmt : Option (List Element)
  pub num_row : ℕ

-- FOURD_STATEMENT. An element is `none` where `realloc` left the memory as it was.
pub record FourdStatement : Type 0 where
  pub query : Bytes
  pub nb_element : ℕ
  pub nb_alloc_element : ℕ
  pub elmt : List (Option Element)
  pub preferred_image_types : Option Bytes

-- What `calloc` gives.
abbrev pub blank_element : Element
blank_element = record { type = vk_unknow; is_null = false; value = null_pointer }

abbrev pub blank_column : Column
blank_column = record { s_type = []; type = vk_unknow; s_column_name = [] }

abbrev pub blank_result : FourdResult
blank_result = record {
  header = [];
  header_size = 0;
  status = 0;
  error_code = pos 0;
  error_string = [];
  result_type = unknow;
  id_statement = pos 0;
  updateability = false;
  row_count = 0;
  row_count_sent = 0;
  first_row = 0;
  nb_column = 0;
  columns = none;
  elmt = none;
  num_row = 0;
}
