-- ===== src/Fuse/Cache.antt =====
-- internal/fuse/cache.go: the three caches of the file system, each an array of slots. A mutex
-- holds each operation together, so an operation is one step on the cache's state. File times are
-- only compared, so the model keeps their `int64` values as numbers.
pub mod Slots
pub mod Read
pub mod Skip
pub mod Neg
