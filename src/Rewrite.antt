-- ===== src/Rewrite.antt =====
-- examples/rewrite_by_lua_v2: requests rewritten by a Lua script, over the second version.
pub mod Pool
pub mod Locks
pub mod Tables
pub mod Handlers
pub mod Config
