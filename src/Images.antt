-- ===== src/Images.antt =====
-- The preparation of the images in internal/run/phases.go: `ensureImages`, `pullImage` and
-- `buildImage`, over the Docker daemon and the file system, which are parameters.
pub mod Defs
pub mod Ensure
pub mod Examples
