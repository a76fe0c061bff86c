-- ===== src/Fuse/Node.antt =====
-- internal/fuse/node.go: the nodes and the open files of the file system.
pub mod Kernel
pub mod Handle
pub mod Tree
pub mod Change
pub mod Faithful
pub mod Reads
pub mod Frame
pub mod Writes
pub mod Renames
pub mod Missing
pub mod Disk
pub mod WriteRead
pub mod Chunks
pub mod Listing
pub mod Stays
pub mod History
