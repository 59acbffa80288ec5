-- ===== src/Refactor.antt =====
-- Package core_refactor: the second version of the proxy.
pub mod ResponseWriter
pub mod HtmlInject
pub mod Hosts
pub mod Proxy
pub mod Server
pub mod Session
pub mod Ca
pub mod Requests
pub mod Client
pub mod Options
pub mod Serve
pub mod Lifecycle
pub mod Tunnel
