-- ===== src/Service/Completions.antt =====
-- No completion of src/service.rs is lost or called twice: each one that `start` or `stop` has taken
-- over stands at exactly one place until it is called.
pub mod Count
pub mod Sections
pub mod Still
pub mod Pieces
pub mod Calls
pub mod Send
pub mod Accounts
pub mod Reachable
