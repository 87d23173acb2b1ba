-- ===== src/Agent.antt =====
-- agent: the exec agent, which runs one process for a connection.
pub mod Chunks
pub mod Process
pub mod Spawn
pub mod Tasks
pub mod Session
pub mod Prompt
pub mod Main
