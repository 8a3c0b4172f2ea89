-- ===== src/Lua.antt =====
-- src/lua: the table that a script is shown, the actions that it answers with.
pub mod Context
pub mod Actions
