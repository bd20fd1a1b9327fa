-- ===== src/Service/Diagram.antt =====
-- The controller of src/service.rs as the diagram of its states, with the last generation: what a
-- client can rely on, and that every step of the threads follows it.
pub mod Edges
pub mod Pieces
pub mod Refines
pub mod Generations
