-- ===== src/Run.antt =====
-- internal/run: the arguments of the container run.
pub mod Host
pub mod Claude
pub mod Env
pub mod Mounts
pub mod Args
pub mod Naming
pub mod Examples
mod NamingExamples
