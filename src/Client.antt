-- ===== src/Client.antt =====
-- lib4d_sql/fourd.c: the interface of the library. A call returns the connection with what it returned in C.
-- `Socket` is `socket_connect_timeout` of lib4d_sql/communication.c.
pub mod Access
pub mod Connect
pub mod Cursor
pub mod Field
pub mod Linked
pub mod Statement
pub mod Socket
