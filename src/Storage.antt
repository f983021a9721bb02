-- ===== src/Storage.antt =====
-- internal/storage: keys, the object model, and the in-memory store.
pub mod Keys
pub mod Objects
pub mod Memory
pub mod Contexts
pub mod Events
pub mod Stages
pub mod Service
pub mod S3
