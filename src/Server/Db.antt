-- ===== src/Server/Db.antt =====
-- server/src/db_handler.c: the files data/users.txt and data/scores.txt. A file is its bytes, or
-- `none` where it does not exist; the outcome of each system call is an argument.
pub mod Lines
pub mod Files
pub mod Users
pub mod Scores
