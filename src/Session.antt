-- ===== src/Session.antt =====
-- lib4d_sql/fourd_interne.c: the commands of the protocol, each a message and the reading of its response.
-- `Message` has the texts, `Exchange` the sending and `receiv_check`, `Query` the statements, `Fetch` the further rows
-- of a result, `Control` the login and the other commands. `Served` follows whole exchanges.
pub mod Message
pub mod Exchange
pub mod Query
pub mod Fetch
pub mod Control
pub mod Decimal
pub mod Served
pub mod Linked
pub mod Ending
