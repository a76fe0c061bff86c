-- ===== src/Detect.antt =====
-- internal/detect: the language stack that the files of a project ask for.
pub mod Patterns
pub mod Defs
pub mod Project
pub mod Order
pub mod Recommend
pub mod Winner
pub mod Suppression
mod Examples
