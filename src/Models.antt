-- ===== src/Models.antt =====
-- The tables of backend/app/models: enums, rows and the database that holds them.
-- A UUID is a number (the code only compares them), a timestamp is a number of microseconds, a
-- coordinate is a number that stands for a float (the code modelled here only copies it).
mod Enums
mod Rows
mod Database
pub use Enums.*
pub use Rows.*
pub use Database.*
