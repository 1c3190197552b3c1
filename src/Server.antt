-- ===== src/Server.antt =====
-- The server: server/.
pub mod Db
pub mod Auth
pub mod Scores
pub mod Online
pub mod Receive
pub mod Words
pub mod Handler
pub mod Reply
pub mod Connection
pub mod System
pub mod Startup
