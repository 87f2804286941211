-- ===== src/Tunnel.antt =====
-- Server and client together: what one side's code makes of what the other side's code wrote.
pub mod Login
pub mod Register
pub mod Work
pub mod Pool
mod Runs
