-- ===== src/Lib.antt =====
-- pgwire: the PostgreSQL wire protocol, as a library for servers.
--
-- A server reads frontend messages from a buffer of bytes and writes backend messages to one. The
-- messages are data types with an encoder and a decoder for the body (the trait `Message`); the
-- framing by a type byte and a length is shared. Handlers answer the messages of a client: they
-- change its state, send messages to it, and keep its statements and portals in a store.
--
-- - Base: names and lists that every module uses. A byte is a natural number, a byte sequence a
--   list; an `i32` or `i16` is the bit pattern of the word, and conversions between the widths are
--   written out.
-- - Errors: src/error.rs, the errors and the fields of an error report; Errors.Fields, what a
--   report carries.
-- - Buffers: `BytesMut` of the crate `bytes`, which is not part of the repository. It is an
--   interface, the record BytesCrate, with the documented behaviour of each operation as a field;
--   Buffers.Standard shows that lists meet it. A function on `&mut BytesMut` is an action: it
--   takes the content and ends with a result or an error and the content that is left, or with a
--   panic. Buffers.Rules and Buffers.Ends hold the rules for what an action reads, writes and
--   takes.
-- - Text: Rust strings as UTF-8 bytes, and `String::from_utf8_lossy`.
-- - Messages.Codec: src/messages/codec.rs and the trait `Message` of src/messages/mod.rs.
--   Messages.Vectors: the counted loops that several bodies share.
-- - Messages.Startup: src/messages/startup.rs, in the child modules Params (the map of
--   parameters), Request, Authentication, Passwords and Status.
-- - Messages.Units: the messages without a body. Messages.Response: src/messages/response.rs and
--   src/messages/simplequery.rs. Messages.Data: src/messages/data.rs. Messages.ExtendedQuery:
--   src/messages/extendedquery.rs.
-- - Messages.Dispatch, Messages.Frontend and Messages.Backend: the two enums of
--   src/messages/mod.rs with `encode` and `decode`. Frontend.Stream is about several messages in
--   one buffer, Frontend.Partial about buffers that are no well-formed message, Backend.Reported
--   about error reports.
-- - Messages.Ends: that every decoder ends.
-- - Api.Step and Api.Client: a call of a handler as a function from a state to a result, an error
--   or a panic with the state that is left; src/api/mod.rs, where the client is a record with the
--   messages that its sink has taken. The sink may refuse any event; theorems about what is sent
--   are about a sink that accepts everything.
-- - Api.Statements, Api.Portals, Api.Store and Api.Results: src/api/stmt.rs, src/api/portal.rs,
--   src/api/store.rs and src/api/results.rs. Store.Laws relates the store to two functions from
--   names. The types of the crate `postgres_types` are an interface.
-- - Types: src/types/mod.rs, how values are written as text; Types.Dates the dates and times,
--   Types.Integers about the text of an integer. Api.Rows: DataRowEncoder of src/api/results.rs.
-- - Api.Query: src/api/query.rs. What the author of a server writes (`do_query`, `do_describe` and
--   the parser) is a field of a handler record. Query.Emits holds the rules for what a step sends,
--   Query.Kept what the handlers preserve, by the rules of Api.Preserved; Query.Simple and
--   Query.Extended are about the two protocols.
-- - Api.Auth: src/api/auth/mod.rs, with Api.Auth.Cleartext (src/api/auth/cleartext.rs),
--   Api.Auth.Md5 (src/api/auth/md5pass.rs), Api.Auth.Noop (src/api/auth/noop.rs and the default
--   parameters) and Api.Auth.Scram (src/api/auth/scram.rs: the messages as text, and in
--   Scram.Handler the two states, with `hmac`, `h` and base64 as parameters, and in Scram.Setup
--   the maker of handlers, its certificate and salted passwords; Scram.Verified states the proof
--   and the signature of RFC 5802 by themselves). The source of passwords and the
--   random numbers are parameters, a `HashMap` of parameters is the list of its entries.
-- - Server: src/tokio.rs, the codec by the state of the connection, `process_message`,
--   `process_error` and the loop over the messages. The handlers are a record. Server.Sockets is
--   `peek_for_sslrequest` and Server.Connection `process_socket`: a socket, a TLS stream and
--   `Framed` of the crate `tokio_util` are interfaces. Connection.Chunks and Connection.Session
--   are about the reads that the bytes come in. Server.Composed is the server of a startup handler
--   and the two query handlers; Composed.Progress and Composed.Login are about its connections.
--   Server.Guarded is about what a connection has had when it is ready, for any messages.
-- - Tests: runs on concrete inputs.
--
-- A method of `Message` on a type is a field of the record Message, and `X_message` is the
-- implementation for the type X. Additions and subtractions on `usize` wrap, as in a release build
-- of a 64-bit target. A loop that reads until an empty string or a zero code runs on fuel, the
-- number of bytes left and one more: a round takes at least one byte. Fuel that runs out is a
-- result of its own.
--
-- A loop whose end depends on the client, that of `process_socket`, has its fuel as an argument.
--
-- Not modelled: `Display` of the errors, the conversion into `std::io::Error`, allocation beyond
-- the capacity that a negative count asks for. The text of floating point numbers, dates, times
-- and hexadecimal digits is a parameter. A stream of rows is the list of the items that it gives.
-- An `async` call is run to its end; the locks of the store are not modelled. The programs under
-- examples and tests-integration use the library and other libraries, and are not modelled.
pub mod Base
pub mod Errors
pub mod Buffers
pub mod Text
pub mod Messages
pub mod Api
pub mod Types
pub mod Server
pub mod Tests
