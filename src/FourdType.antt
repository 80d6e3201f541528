-- ===== src/FourdType.antt =====
-- lib4d_sql/fourd_type.c: the names and sizes of the 4D types and of the result types.
pub mod Names
use pdo_4d.Base.{ℤ, pos, negsuc, Bytes, codes, equal, if◌then◌else◌}

-- FOURD_TYPE
pub data FourdType : Type 0 where
  vk_unknow vk_boolean vk_byte vk_word vk_long vk_long8 vk_real vk_float vk_time : FourdType
  vk_timestamp vk_duration vk_text vk_string vk_blob vk_image : FourdType

-- FOURD_RESULT_TYPE
pub data ResultType : Type 0 where
  unknow update_count result_set : ResultType

unfoldable pub type_from_string : Bytes → FourdType
type_from_string type =
    if equal type (codes "VK_BOOLEAN")
    then vk_boolean
    else if equal type (codes "VK_BYTE")
    then vk_byte
    else if equal type (codes "VK_WORD")
    then vk_word
    else if equal type (codes "VK_LONG")
    then vk_long
    else if equal type (codes "VK_LONG8")
    then vk_long8
    else if equal type (codes "VK_REAL")
    then vk_real
    else if equal type (codes "VK_FLOAT")
    then vk_float
    else if equal type (codes "VK_TIMESTAMP")
    then vk_timestamp
    else if equal type (codes "VK_TIME")
    then vk_timestamp
    else if equal type (codes "VK_DURATION")
    then vk_duration
    else if equal type (codes "VK_TEXT")
    then vk_string
    else if equal type (codes "VK_STRING")
    then vk_string
    else if equal type (codes "VK_BLOB")
    then vk_blob
    else if equal type (codes "VK_IMAGE")
    then vk_image
    else vk_unknow

unfoldable pub string_from_type : FourdType → Bytes
string_from_type vk_boolean = codes "VK_BOOLEAN"
string_from_type vk_byte = codes "VK_BYTE"
string_from_type vk_word = codes "VK_WORD"
string_from_type vk_long = codes "VK_LONG"
string_from_type vk_long8 = codes "VK_LONG8"
string_from_type vk_real = codes "VK_REAL"
string_from_type vk_float = codes "VK_FLOAT"
string_from_type vk_timestamp = codes "VK_TIMESTAMP"
string_from_type vk_time = codes "VK_TIME"
string_from_type vk_duration = codes "VK_DURATION"
string_from_type vk_string = codes "VK_STRING"
string_from_type vk_blob = codes "VK_BLOB"
string_from_type vk_image = codes "VK_IMAGE"
string_from_type _ = codes "VK_UNKNOW"

-- -1 for a varying length, 0 for an unknown type
unfoldable pub vk_sizeof : FourdType → ℤ
vk_sizeof vk_boolean = pos 2
vk_sizeof vk_byte = pos 2
vk_sizeof vk_word = pos 2
vk_sizeof vk_long = pos 4
vk_sizeof vk_long8 = pos 8
vk_sizeof vk_real = pos 8
vk_sizeof vk_duration = pos 8
vk_sizeof vk_float = negsuc 0
vk_sizeof vk_time = pos 8
vk_sizeof vk_timestamp = pos 8
vk_sizeof vk_text = negsuc 0
vk_sizeof vk_string = negsuc 0
vk_sizeof vk_blob = negsuc 0
vk_sizeof vk_image = negsuc 0
vk_sizeof vk_unknow = pos 0

unfoldable pub result_type_from_string : Bytes → ResultType
result_type_from_string type =
    if equal type (codes "Update-Count")
    then update_count
    else if equal type (codes "Result-Set")
    then result_set
    else unknow

unfoldable pub string_from_result_type : ResultType → Bytes
string_from_result_type update_count = codes "Update-Count"
string_from_result_type result_set = codes "Result-Set"
string_from_result_type unknow = codes "Unknow"
