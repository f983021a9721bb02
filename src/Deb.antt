-- ===== src/Deb.antt =====
-- internal/deb: reading Debian package files.
pub mod Ar
pub mod Reader
