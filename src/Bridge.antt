-- ===== src/Bridge.antt =====
-- internal/bridge: the state of the terminal interface (model.go) and its update function
-- (update.go). The commands that an update returns are run by bubbletea and Docker; here they are
-- data. The clock is an argument.
pub mod Defs
pub mod Items
pub mod Update
mod Examples
