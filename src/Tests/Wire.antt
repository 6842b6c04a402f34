-- ===== src/Tests/Wire.antt =====
-- Messages that are written and read, over the list model of the crate `bytes`.
mod Frontend
mod Backend
mod Startup
