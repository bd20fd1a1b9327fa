-- ===== src/Service/Reaping.antt =====
-- The workers that the owners of src/service.rs hold, and the reapers that take them.
pub mod Takes
pub mod Pieces
pub mod Reachable
