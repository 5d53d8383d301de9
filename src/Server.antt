-- ===== src/Server.antt =====
-- server/src: errors, results and the state that the handlers share. Each handler is a function of
-- the database; a write to the database may fail, and what was written before stays written.
pub mod Db
pub mod Json
pub mod Models
pub mod Keeps
pub mod Ensures
pub mod Auth
pub mod Api
