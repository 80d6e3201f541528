-- ===== src/SqlState.antt =====
-- lib4d_sql/sqlstate.c: the SQLSTATE of an error code.
pub mod Laws
use Prim.Native.String.{String}
use pdo_4d.Base.{ℕ, List, [], ◌∷◌, ◌==◌, if◌then◌else◌, ℤ, pos, negsuc, Bytes, codes}
use pdo_4d.Connection.{Fourd}

-- The cases of the switch that are not negative.
abbrev sqlstates : List (ℕ × String)
sqlstates =
    (1101, "42P01")
    ∷ (1102, "42S22")
    ∷ (1103, "42P01")
    ∷ (1104, "42702")
    ∷ (1105, "42P09")
    ∷ (1106, "42P09")
    ∷ (1107, "42P09")
    ∷ (1108, "HY004")
    ∷ (1109, "HY000")
    ∷ (1110, "42P08")
    ∷ (1111, "HY105")
    ∷ (1112, "42883")
    ∷ (1113, "22012")
    ∷ (1114, "HY000")
    ∷ (1115, "HY000")
    ∷ (1116, "HY000")
    ∷ (1117, "HY000")
    ∷ (1118, "25007")
    ∷ (1119, "42803")
    ∷ (1120, "42803")
    ∷ (1121, "42803")
    ∷ (1122, "42702")
    ∷ (1123, "42803")
    ∷ (1124, "HY000")
    ∷ (1125, "2200B")
    ∷ (1126, "2200B")
    ∷ (1127, "2200B")
    ∷ (1128, "HY000")
    ∷ (1129, "42803")
    ∷ (1130, "HY000")
    ∷ (1131, "HY000")
    ∷ (1132, "21S01")
    ∷ (1133, "21S01")
    ∷ (1134, "23502")
    ∷ (1135, "42701")
    ∷ (1136, "42P07")
    ∷ (1137, "42701")
    ∷ (1138, "42701")
    ∷ (1139, "HY000")
    ∷ (1140, "42830")
    ∷ (1141, "42830")
    ∷ (1142, "42830")
    ∷ (1143, "42S22")
    ∷ (1144, "HY000")
    ∷ (1145, "42830")
    ∷ (1146, "22020")
    ∷ (1147, "HY000")
    ∷ (1148, "HY000")
    ∷ (1149, "42830")
    ∷ (1150, "HY000")
    ∷ (1151, "HY000")
    ∷ (1153, "HY090")
    ∷ (1154, "HY000")
    ∷ (1203, "HY000")
    ∷ (1204, "HY000")
    ∷ (1205, "HY000")
    ∷ (1206, "HY000")
    ∷ (1207, "HY000")
    ∷ (1208, "HY000")
    ∷ (1209, "HY000")
    ∷ (1210, "HY000")
    ∷ (1211, "HY000")
    ∷ (1212, "HY000")
    ∷ (1213, "HY000")
    ∷ (1214, "HY000")
    ∷ (1215, "HY000")
    ∷ (1216, "HY000")
    ∷ (1217, "HY000")
    ∷ (1218, "HY000")
    ∷ (1219, "HY000")
    ∷ (1220, "HY000")
    ∷ (1221, "HY000")
    ∷ (1222, "HY000")
    ∷ (1301, "42601")
    ∷ (1401, "HY000")
    ∷ (1402, "HY000")
    ∷ (1403, "HY000")
    ∷ (1404, "HY000")
    ∷ (1405, "HY000")
    ∷ (1406, "HY000")
    ∷ (1407, "HY000")
    ∷ (1408, "HY000")
    ∷ (1409, "HY000")
    ∷ (1410, "HY000")
    ∷ (1411, "HY000")
    ∷ (1412, "HY000")
    ∷ (1413, "HY000")
    ∷ (1414, "HY000")
    ∷ (1415, "HY000")
    ∷ (1416, "HY000")
    ∷ (1417, "HY000")
    ∷ (1418, "HY000")
    ∷ (1419, "HY000")
    ∷ (1420, "HY000")
    ∷ (1421, "HY000")
    ∷ (1422, "HY000")
    ∷ (1423, "HY000")
    ∷ (1424, "HY000")
    ∷ (1425, "HY000")
    ∷ (1426, "HY000")
    ∷ (1427, "HY000")
    ∷ (1428, "HY000")
    ∷ (1429, "HY000")
    ∷ (1430, "HY000")
    ∷ (1501, "HY000")
    ∷ (1502, "22007")
    ∷ (1503, "22007")
    ∷ (1504, "22007")
    ∷ (1505, "22007")
    ∷ (1506, "22007")
    ∷ (1507, "22007")
    ∷ (1508, "22007")
    ∷ (1509, "22007")
    ∷ (1510, "22007")
    ∷ (1511, "22007")
    ∷ (1512, "22007")
    ∷ (1513, "22007")
    ∷ (1551, "22007")
    ∷ (1601, "HY000")
    ∷ (1602, "HY000")
    ∷ (1603, "HY000")
    ∷ (1604, "HY000")
    ∷ (1605, "HY000")
    ∷ (1606, "HY000")
    ∷ (1607, "HY000")
    ∷ (1837, "HY000")
    ∷ (2000, "HY000")
    ∷ (2001, "HY000")
    ∷ (2002, "HY000")
    ∷ (3000, "HY000")
    ∷ (3001, "HY000")
    ∷ (3002, "HY000")
    ∷ (3003, "HY000")
    ∷ (3004, "HY000")
    ∷ (3005, "HY000")
    ∷ (3006, "HY000")
    ∷ (3007, "HY000")
    ∷ (3008, "HY000")
    ∷ (3009, "HY000")
    ∷ (3010, "HY000")
    ∷ (3011, "HY000")
    ∷ (3012, "HY000")
    ∷ (3013, "HY000")
    ∷ (3014, "HY000")
    ∷ []

pub lookup : ℕ → List (ℕ × String) → Bytes
lookup code [] = codes "HY000"
lookup code ((c, state) ∷ rest) = if code == c then codes state else lookup code rest

-- The switch; -1, -5001 and -10060 are its negative cases.
unfoldable pub sqlstate_of : ℤ → Bytes
unfolding lookup
sqlstate_of (pos code) = lookup code sqlstates
sqlstate_of (negsuc n) =
    if n == 10059
    then codes "08001"
    else if n == 0
    then codes "01S00"
    else if n == 5000
    then codes "0LP01"
    else codes "HY000"

unfoldable pub fourd_sqlstate : Fourd → Bytes
unfolding sqlstate_of
fourd_sqlstate cnx = sqlstate_of cnx.error_code
