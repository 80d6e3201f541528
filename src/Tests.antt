-- ===== src/Tests.antt =====
-- The properties at concrete inputs: `Codecs` for texts and types, `Stream` for the network and the values on it, `Calls` for
-- whole exchanges, `Cursors` for results and statements, over the inputs of `Data`, and `Handles` for the driver.
mod Codecs
mod Stream
mod Data
mod Responses
mod Exchanges
mod Memory
mod Lives
mod Calls
mod Cursors
mod Handles
