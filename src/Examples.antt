-- ===== src/Examples.antt =====
-- Concrete stores, packages and manifests at which the theorems are applied.
pub mod Storage
pub mod Apt
pub mod Publishing
pub mod Locking
pub mod Cleaning
pub mod Service
pub mod Reading
pub mod Signing
pub mod Uploading
pub mod Managing
pub mod Querying
