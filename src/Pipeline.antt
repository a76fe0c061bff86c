-- ===== src/Pipeline.antt =====
-- internal/run/phases.go: the whole run, from the project's path to the end of the container.
pub mod Defs
pub mod Ready
mod Examples
