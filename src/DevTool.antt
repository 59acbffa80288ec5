-- ===== src/DevTool.antt =====
-- examples/dev-tool/main.go: a proxy that routes, rewrites and records requests.
pub mod Rules
pub mod Body
pub mod Messages
pub mod Records
pub mod Tracker
pub mod Web
