-- ===== src/Messages/Startup.antt =====
-- messages/startup.rs, a child for each group of messages.
pub mod Params
pub mod Request
pub mod Authentication
pub mod Passwords
pub mod Status
