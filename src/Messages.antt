-- ===== src/Messages.antt =====
-- messages: the wire format. Its children follow the source's files.
pub mod Codec
pub mod Vectors
pub mod Startup
pub mod Units
pub mod Dispatch
pub mod Ends
pub mod Frontend
pub mod Backend
pub mod Response
pub mod Data
pub mod ExtendedQuery
