-- ===== src/Server.antt =====
-- server/: the server, its managers (one for each client), their proxies, and the http mux.
pub mod Api
pub mod World
pub mod Address
pub mod Proxy
pub mod Manager
pub mod Registry
pub mod System
pub mod Mux
pub mod Forward
pub mod Start
mod Runs
