-- ===== src/Netstat.antt =====
-- netstat/: the search for free ports, and the socket tables of the system.
pub mod Ports
pub mod Listing
pub mod Linux
pub mod Tables
pub mod PortSet
pub mod Process
pub mod Windows
pub mod Cmd
mod Runs
