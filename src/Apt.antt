-- ===== src/Apt.antt =====
-- internal/apt: control paragraphs, packages, manifests and releases.
pub mod Control
pub mod Fields
pub mod Dependency
pub mod Package
pub mod Rendering
pub mod Manifest
pub mod Publishing
pub mod Retrieval
pub mod Release
