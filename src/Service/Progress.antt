-- ===== src/Service/Progress.antt =====
-- The threads of src/service.rs get their work done: without new calls they take a bounded number of
-- steps.
pub mod Load
pub mod Pieces
pub mod Bound
