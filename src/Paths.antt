-- ===== src/Paths.antt =====
-- internal/paths/paths.go: host paths as the container runtime takes them.
pub mod Defs
pub mod Slashes
pub mod Agree
mod Examples
