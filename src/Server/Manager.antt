-- ===== src/Server/Manager.antt =====
-- server/manager.go: the manager of one client, with its channels. Its proxies, the handling of
-- messages and `Close` are in the modules below.
pub mod Proxies
pub mod ProxyLaws
pub mod Closing
pub mod Running
pub mod Invariant
pub mod Release
pub mod Steps
pub mod Identity
pub mod Ending
use ae_ro_go.Base.{
  ℕ, ◌+◌, ◌*◌, ◌≡◌, refl, Bool, true, false, List, [], ◌∷◌, ◌++◌, Bytes, codes, Option, none, some,
  if◌then◌else◌,
}
use ae_ro_go.Base.Int.{ℤ, pos, negsuc, ltb_ℤ, pos_part}
use ae_ro_go.Base.Dict.{Dict}
use ae_ro_go.Base.Chan.{
  ok_or_blocked, Chan, make_chan, Outcome, done, blocked, panicked, send, recv,
}
use ae_ro_go.Util.Ema.{Float, Ema, zero_ema}
use ae_ro_go.Message.{Message, LoginRequest, heartbeat_request, pipe_request}
use ae_ro_go.Server.Proxy.{Proxy}

pub data MgrError : Type 0 where
  mgr_closed recv_ch_closed pool_full pipe_timeout : MgrError

-- `UnixMicro` of the zero `time.Time`, the start of the year 1.
abbrev pub zero_time : ℤ
zero_time = negsuc 62135596799999999

abbrev pub max_pool_size : ℤ
max_pool_size = pos 8

-- The two adjustments of the pool size in `NewManager`.
unfoldable pub pool_size_for : ℤ → ℤ
pool_size_for asked =
    let size = if ltb_ℤ (pos 0) asked then asked else pos 2 in
    if ltb_ℤ max_pool_size size then max_pool_size else size

module _ (float : Float) where
  -- Times are in microseconds.
  pub record Manager : Type 0 where
    pub client_id : Bytes
    pub tag : Bytes
    pub conn : ℕ
    pub conn_time : ℤ
    pub recv_chan : Chan Message
    pub send_chan : Chan Message
    pub proxies : Dict Proxy
    pub proxies_str : Bytes
    pub pipe_conn_pool : Chan ℕ
    pub pool_size : ℤ
    pub meta : LoginRequest
    pub last_beat_time : ℤ
    pub latency : Ema float
    pub closed : Bool

  -- `NewManager`
  unfoldable pub new_manager : Bytes → ℕ → ℤ → LoginRequest → Manager
  new_manager id conn now req =
      let size = pool_size_for req.pool_size in
      record {
        client_id = id;
        tag = req.tag;
        conn = conn;
        conn_time = now;
        recv_chan = make_chan 10;
        send_chan = make_chan 10;
        proxies = [];
        proxies_str = [];
        pipe_conn_pool = make_chan (pos_part size * 2);
        pool_size = size;
        meta = req;
        last_beat_time = zero_time;
        latency = zero_ema float;
        closed = false;
      }

  -- `SendMassage`: a send on a closed channel panics, `recover` ends that, and the result is nil.
  unfoldable pub send_message : Manager → Message → Outcome (Option MgrError × Manager)
  send_message m msg = if m.closed then done (some mgr_closed, m) else elim (send m.send_chan msg) [
    | done c ↦ done (none, record m { send_chan = c })
    | blocked ↦ blocked
    | panicked ↦ done (none, m)
  ]

  -- `ReqPipeConn`
  unfoldable pub req_pipe_conn : Manager → Outcome (Option MgrError × Manager)
  req_pipe_conn m = send_message m (pipe_request (record { client_id = [] }))

  -- `Ping`: the error of `SendMassage` is not returned.
  unfoldable pub ping : Manager → ℤ → Outcome (ℤ × Manager)
  ping m now =
      ok_or_blocked (send_message m (heartbeat_request (record { timestamp = now })))
        λ r. done (now, r.1)

  -- `PushPipeConn`: a `select` with a default, so it never waits.
  unfoldable pub push_pipe_conn : Manager → ℕ → Option MgrError × Manager
  push_pipe_conn m conn =
      if m.closed then (some mgr_closed, m) else elim (send m.pipe_conn_pool conn) [
        | done c ↦ (none, record m { pipe_conn_pool = c })
        | blocked ↦ (some pool_full, m)
        | panicked ↦ (none, m)
      ]

  pub data Popped : Type 0 where
    got : ℕ → Popped
    failed : MgrError → Popped

  -- The `select` of `PopPipeConn`; it waits until the pool answers or the five seconds are over.
  unfoldable pub pop_select : Manager → Bool → Outcome (Popped × Manager)
  pop_select m time_is_up = elim (recv m.pipe_conn_pool) [
    | done (some conn, c) ↦ done (got conn, record m { pipe_conn_pool = c })
    | done (none, c) ↦ done (failed mgr_closed, m)
    | blocked ↦ if time_is_up then done (failed pipe_timeout, m) else blocked
    | panicked ↦ panicked
  ]

  -- `PopPipeConn`: it asks the client for another pipe first, and does not look at the result.
  unfoldable pub pop_pipe_conn : Manager → Bool → Outcome (Popped × Manager)
  pop_pipe_conn m time_is_up = ok_or_blocked (req_pipe_conn m) λ r. pop_select r.1 time_is_up

  -- `getMessage`
  unfoldable pub get_message : Manager → Outcome (Option Message × Manager)
  get_message m = ok_or_blocked (recv m.recv_chan) λ r. done (r.0, record m { recv_chan = r.1 })
