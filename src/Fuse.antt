-- ===== src/Fuse.antt =====
-- internal/fuse: the file system that rewrites host paths to container paths and back.
pub mod Scan
pub mod Config
mod ConfigTests
pub mod DirMap
pub mod PathUtil
pub mod Transform
pub mod Cache
pub mod QuickScan
pub mod Node
mod NodeExamples
mod TransformTests
mod RewriteExamples
mod CacheExamples
