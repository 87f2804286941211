-- ===== src/Util.antt =====
-- util/: the helpers that server, client and netstat share.
pub mod Seq
pub mod Text
pub mod Legal
pub mod Uid
pub mod Ema
pub mod Whole
pub mod Rotate
pub mod Pipe
pub mod Caller
mod Runs
