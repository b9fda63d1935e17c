-- ===== src/Tests.antt =====
-- Concrete inputs: a platform that runs, tests, and the theorems at inputs that meet their
-- premises.
mod Backend
mod Daemon
mod Document
mod Dotenv
mod Edit
mod Exec
mod Files
mod Import
mod Input
mod Init
mod Json
mod Listener
mod Migrate
mod Manifest
mod Platform
mod Requests
mod Resolve
mod Stores
mod Transport
mod TuiEdit
