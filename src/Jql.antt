-- ===== src/Jql.antt =====
-- src/query/jql.rs: the compiler from Mongo-style JSON filters to SQLite text and bind values.
pub mod Path
pub mod Alias
pub mod Operator
pub mod Filter
pub mod Weight
pub mod Flat
mod Tests
