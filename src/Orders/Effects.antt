-- ===== src/Orders/Effects.antt =====
-- What each operation of the order service leaves in the database, as an elimination rule: a
-- property of databases holds after the call if it holds before it and after the writes of the
-- branch that succeeds, under all that this branch has checked.
pub mod Loading
pub mod Transitions
pub mod Delivering
pub mod Closing
pub mod Purge
pub mod Placing
