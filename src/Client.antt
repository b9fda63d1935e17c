-- ===== src/Client.antt =====
-- The command line's commands (src/client.cpp): exec.
pub mod Plan
pub mod Exec
pub mod Requests
pub mod ImportOptions
pub mod Import
pub mod Resolve
pub mod Commands
pub mod Init
