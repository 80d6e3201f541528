-- ===== src/Lib.antt =====
-- A model of PDO_4D, the PDO driver for 4D servers, and of the library lib4D_SQL that it stands on, in C.
--
-- The program, from the network upwards:
--   Net          lib4d_sql/communication.c, `frecv`. `Net.Stream` relates it to the byte stream.
--   Proc         what a routine does to its socket: a tree of reads, writes and closings. `run` executes it against a
--                `World` (the events that the network will deliver, and whether each `send` succeeds). `Proc.Refine` and
--                `Proc.Yields` describe a routine by the byte stream alone; `Proc.Always` has what holds of every outcome, `Proc.Keeps`
--                what holds of it together with whether the socket is open, and `Proc.Hangs` when a routine cannot hang.
--   Receive      lib4d_sql/communication.c: `socket_receiv_header`, `socket_receiv_data`, `socket_receiv_update_count`. `Elements` is the
--                switch on the type of a column, `Wire` what a server sends, described independently, and `Steps` names how the loops
--                go on behind what they read.
--   Base64       lib4d_sql/base64.c.
--   FourdType    lib4d_sql/fourd_type.c, and the enumerations of lib4d_sql/fourd.h.
--   SqlState     lib4d_sql/sqlstate.c.
--   Strip        lib4d_sql/utils.c.
--   Connection   the records of lib4d_sql/fourd.h. A result points to one connection in C; here the two are passed together.
--   MultiQuery, Header, Params and Session   lib4d_sql/fourd_interne.c: `_is_multi_query`; `get`, `_get_status` and
--                `traite_header_response`; `_copy` and `_serialize`; and the commands of the protocol, with `socket_send` and
--                `socket_disconnect` of lib4d_sql/communication.c.
--   Client       lib4d_sql/fourd.c: connections, the cursor of a result, fields and prepared statements. `Client.Socket` is
--                lib4d_sql/communication.c, `socket_connect_timeout`, `socket_connect` and `set_sock_blocking`.
--   Memory       lib4d_sql/fourd_interne.c, `_free_data_result`, `Free` and its kin, and the end of `_fetch_result`, and lib4d_sql/fourd.c,
--                `fourd_free_result`: what is freed of a heap of blocks, where `Places` says how the elements of a result lie.
--                `Received` has what lib4d_sql/communication.c, `socket_receiv_data`, allocates.
--   Driver       4d_driver.c and 4d_statement.c: the methods of PDO handles and statements. `Driver.Lifecycle` has the steps that a
--                handle can take, as a relation, and the states that it reaches. `Driver.Statement.Selected` follows a query through
--                all layers to the columns that PHP gets.
--   Quote        4d_driver.c, `fourd_handle_quoter`.
--   Tests        the properties at concrete inputs.
--   Base         shared types, tests on numbers, C strings, words of memory, and `Outcome`.
--
-- A call from the driver goes down through Client and Session: a message is sent, `Receive` reads the header of the response, `Header`
-- takes its fields into the result, and the rows or the count follow. Names are those of the source, in lower case with
-- underscores: `fourd_next_row`, `pdo_4d_stmt_fetch`, `column_count` for the block of `traite_header_response` that reads Column-Count.
--
-- Undefined behaviour (an access outside of an array, a null pointer, memory that was not initialised, a signed overflow of a size) is the outcome `fault`, or `fails` in a
-- `Proc`. Unsigned C integers are natural numbers with their wrap-around written out; signed ones are of the type ℤ. The
-- compatibility layer for systems other than Windows is the one modelled, `sprintf_s` being `vsnprintf`.
--
-- Fuel: `frecv` has one round for each event and one more; as each round uses up an event, it is enough unless the peer has closed,
-- and then no number of rounds is. The header loop runs through the buffer that it fills. The loops of `fourd_handle_quoter` have
-- one round for each byte and one more, and a round takes a byte at least. `decimal` has more rounds than the number has digits.
--
-- Parameters: PDO's parser of placeholders, the conversion of encodings by PHP, and `%lf` of the C library. `fourd_connect` takes its
-- `socket_connect_timeout` as an argument; `Client.Socket` has it over what the system answers.
--
-- The heap of `Memory` is a partial function from addresses; a block says which pointers it holds. The rest of the model passes values, not
-- addresses: `Places.IsPlaced` ties the two.
--
-- A FOURD_RESULT on the stack counts as not initialised: `is_settled` of `Session.Exchange` tells which headers leave none of its fields undefined that is
-- read. Simplified: the write of `*pdo_err[5]`, which lies outside of the SQLSTATE, is left out; so are the endless reads of the digits of a FLOAT when the peer has closed at that place, and a second response that writes over the
-- columns that two results share; the `%d` and `atoi` of the C library are those of glibc, with `int` wrapped around.
--
-- Not modelled: pdo_4d.c, which registers the extension with PHP; whether a socket blocks, beyond the flags that `set_sock_blocking` computes; the
-- code for Windows; the memory of parameters, statements and of the driver; and printing.
mod Base
pub mod Base64
pub mod FourdType
pub mod Strip
pub mod MultiQuery
pub mod Connection
pub mod Header
pub mod Net
pub mod Proc
pub mod Receive
pub mod Params
pub mod SqlState
pub mod Session
pub mod Client
pub mod Driver
pub mod Memory
pub mod Quote
mod Tests
