-- ===== src/Client/Statement/Executed.antt =====
-- The execution of a statement with parameters.
use pdo_4d.Base.{List}
use pdo_4d.Client.Cursor.{Answer, as_cursor}
use pdo_4d.Connection.{Fourd, FourdResult}
use pdo_4d.Receive.Wire.{Row}
use pdo_4d.Session.Served.Params.{param_reply}

abbrev pub statement_answer : Fourd → FourdResult → List Row → Answer
statement_answer cnx t rows = as_cursor (param_reply cnx t rows)
