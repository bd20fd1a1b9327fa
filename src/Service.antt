-- ===== src/Service.antt =====
-- The service controller of src/service.rs: its data, its operations, its threads, its laws.
pub mod Types
pub mod Lifecycle
pub mod Owner
pub mod Dispatch
pub mod World
pub mod Effects
pub mod Lock
pub mod Sections
pub mod Controller
pub mod Supervisor
pub mod System
pub mod Completions
pub mod Terminal
pub mod Diagram
pub mod Requests
pub mod Starts
pub mod Stops
pub mod Sends
pub mod Recovery
pub mod Verdict
pub mod Progress
pub mod Told
pub mod Reaping
