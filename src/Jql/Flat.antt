-- ===== src/Jql/Flat.antt =====
-- About the texts that the filter compiler of src/query/jql.rs writes.
pub mod Path
pub mod Fragment
pub mod Operator
pub mod Filter
