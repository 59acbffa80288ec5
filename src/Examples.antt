-- ===== src/Examples.antt =====
-- The theorems at concrete inputs, and the network and the pages that they run on.
mod FakeNet
mod Writers
mod Pages
mod Addresses
mod Sessions
mod Connections
mod Signing
mod Requests
mod Serving
mod FirstRequests
mod Shutdown
mod Rewriting
mod Tools
mod Tunnels
mod Stopping
mod Scripts
