-- ===== src/Service/Told.antt =====
-- What the callers of src/service.rs are told, in every reachable state.
pub mod Items
pub mod Sections
pub mod Still
pub mod Pieces
pub mod Calls
pub mod Truthful
pub mod Reachable
