-- ===== src/Core.antt =====
-- Package core: the first version of the proxy.
pub mod ResponseWriter
pub mod HtmlInject
pub mod Connector
pub mod Certificates
pub mod Container
pub mod Reads
pub mod Lifecycle
pub mod Local
