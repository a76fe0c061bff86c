-- ===== src/Stacks.antt =====
-- internal/config/stacks.go: the language stacks of the images, their parents and their search.
-- A stack is a Go string; its constants are the constructors here, `name` gives the string.
pub mod Defs
pub mod Laws
mod Examples
