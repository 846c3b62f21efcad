-- ===== src/Mutation.antt =====
-- src/service/dispatcher/tx_mutation.rs: mutations of a document, as the fields of a JSON object whose
-- keys are paths.
pub mod Macros
pub mod Single
pub mod Contract
pub mod Patch
pub mod Selectors
pub mod Ends
pub mod Frame
pub mod Locality
pub mod Elements
pub mod Effects
pub mod Renames
mod Tests
