-- ===== src/Store.antt =====
-- internal/store: the rows of the database tables, and the queries that the program makes.
pub mod Models
pub mod Db
pub mod Players
pub mod Submissions
