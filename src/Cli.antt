-- ===== src/Cli.antt =====
-- internal/config/file.go and internal/cli/run.go: what a run is asked for.
pub mod Config
pub mod Flags
pub mod Laws
mod Examples
