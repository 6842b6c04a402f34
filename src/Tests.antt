-- ===== src/Tests.antt =====
-- Runs of the code on concrete inputs, which show that the conditions of the theorems can be met.
mod Standins
mod Wire
mod Handlers
mod Sessions
mod Scram
mod Rows
mod Connections
mod Logins
mod Setup
mod Handshakes
mod Md5
