-- ===== src/Api.antt =====
-- api/: the client, the store of statements and portals, and the handlers of queries.
pub mod Step
pub mod Client
pub mod Statements
pub mod Results
pub mod Portals
pub mod Store
pub mod Query
pub mod Auth
pub mod Rows
pub mod Preserved
