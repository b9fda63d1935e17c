-- ===== src/Manifest.antt =====
-- The manifest of a project (src/manifest.cpp): the names that it may hold, and the files that it
-- may be read from.
pub mod Scopes
pub mod Group
pub mod Trust
pub mod Files
pub mod EnvNames
pub mod Cloud
pub mod Yaml
pub mod Parse
pub mod Entries
pub mod Document
pub mod Lines
pub mod Dotenv
pub mod Blocks
pub mod Edit
pub mod Registry
