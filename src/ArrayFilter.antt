-- ===== src/ArrayFilter.antt =====
-- src/service/dispatcher/tx_mutation.rs: the filters that choose the elements of an array to mutate.
pub mod Operators
pub mod Paths
pub mod Choices
pub mod Match
pub mod Opposites
mod Tests
