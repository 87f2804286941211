-- ===== src/Client.antt =====
-- client/: the client of the reverse proxy. The records of its configuration, which `main` fills and
-- every part reads.
pub mod Targets
pub mod Login
pub mod Handshake
pub mod Agent
pub mod Work
pub mod Main
pub mod Reconnect
mod Runs
use ae_ro_go.Base.{[], Bool, Bytes}
use ae_ro_go.Base.Int.{ℤ}
use ae_ro_go.Base.Dict.{Dict}

-- `wn` and `rn` count the bytes that the proxy has carried.
pub record Proxy : Type 0 where
  pub name : Bytes
  pub typ : Bytes
  pub local_addr : Bytes
  pub remote_port : Bytes
  pub wn : ℤ
  pub rn : ℤ
  pub started : Bool

pub record ClientConfig : Type 0 where
  pub name : Bytes
  pub tag : Bytes
  pub server_addr : Bytes
  pub auth_code : Bytes
  pub pool_size : ℤ
  pub log_file : Bytes
  pub proxies : Dict Proxy
  pub heartbeat_interval : ℤ
  pub debug : Bool

-- Without the connection to the server and its session, which are the network library's.
pub record Client : Type 0 where
  pub config : ClientConfig
  pub client_id : Bytes
  pub server_addr : Bytes

-- `NewClient`
unfoldable pub new_client : ClientConfig → Client
new_client cfg = record { config = cfg; client_id = []; server_addr = cfg.server_addr }
