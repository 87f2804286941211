-- ===== src/Server/Api.antt =====
-- server/server.go and server/manager.go: the http interface of `ApiServer`, `Info` and `String`.
pub mod Listed
use ae_ro_go.Base.{
  ℕ, Bool, true, false, List, [], ◌∷◌, ◌++◌, Bytes, bytes_eq, codes, Option, none, some, length,
  map, if◌then◌else◌,
}
use ae_ro_go.Base.Int.{ℤ}
use ae_ro_go.Base.Chan.{Outcome, done, blocked, panicked, ok_or_blocked}
use ae_ro_go.Base.Dict.{values}
use ae_ro_go.Util.Ema.{Float}
use ae_ro_go.Util.Text.{split}
use ae_ro_go.Message.{LoginRequest}
use ae_ro_go.Server.Proxy.{Proxy}
use ae_ro_go.Server.Manager.{Manager, ping}
use ae_ro_go.Server.Registry.{Server, find_manager, put_manager, filter_managers}

-- `String` of a manager: `fmt.Sprintf("<%s:%s:%s>", …)`.
unfoldable pub manager_string : Bytes → Bytes → Bytes → Bytes
manager_string id tag proxies = b'<' ∷ (id ++ (b':' ∷ (tag ++ (b':' ∷ (proxies ++ (b'>' ∷ []))))))

module _ (float : Float) where
  -- The map that `Info` of a manager returns; times are in microseconds.
  pub record ManagerInfo : Type 0 where
    pub cid : Bytes
    pub psize : ℤ
    pub cpool : ℕ
    pub proxies : List Proxy
    pub avglat : float.F
    pub lastlat : ℤ
    pub conn_t : ℤ
    pub last_t : ℤ
    pub meta : LoginRequest

  -- `Info` of a manager.
  unfoldable pub manager_info : Manager float → ManagerInfo
  manager_info m = record {
    cid = m.client_id;
    psize = m.pool_size;
    cpool = length m.pipe_conn_pool.buf;
    proxies = values m.proxies;
    avglat = m.latency.avg;
    lastlat = m.latency.last;
    conn_t = m.conn_time;
    last_t = m.last_beat_time;
    meta = m.meta;
  }

  info_loop : List (Manager float) → List ManagerInfo → List ManagerInfo
  info_loop [] infos = infos
  info_loop (m ∷ ms) infos = info_loop ms (infos ++ manager_info m ∷ [])

  -- `Info` of the server, over the managers in the order in which `range` visits them.
  unfoldable pub server_info : List (Manager float) → List Bytes → List ManagerInfo
  unfolding info_loop
  server_info visited tags = info_loop (filter_managers float visited tags) []

  -- The routes of the interface, with the query's values, empty where they are missing.
  pub data Call : Type 0 where
    health : Call
    list_managers : (tags : Bytes) → Call
    ping_client : (cid : Bytes) → Call

  pub data Reply : Type 0 where
    text : Bytes → Reply
    mgrs : List ManagerInfo → Reply
    ping_time : ℤ → Reply
    nothing : Reply

  -- `/list`
  unfoldable pub handle_list : List (Manager float) → Bytes → Reply
  handle_list visited tags =
      if bytes_eq tags []
      then mgrs (server_info visited [])
      else mgrs (server_info visited (split tags (b',' ∷ [])))

  -- `/ping`, where the heartbeat goes to the manager behind the pointer.
  unfoldable pub handle_ping : Server float → ℤ → Bytes → Outcome (Reply × Server float)
  handle_ping s now cid = elim (find_manager float s cid) [
    | none ↦ done (nothing, s)
    | some (p, m) ↦
        ok_or_blocked (ping float m now) λ r. done (ping_time r.0, put_manager float s p r.1)
  ]

  unfoldable pub handle_call :
      Server float → List (Manager float) → ℤ → Call → Outcome (Reply × Server float)
  unfolding handle_list handle_ping
  handle_call s visited now health = done (text (codes "ok"), s)
  handle_call s visited now (list_managers tags) = done (handle_list visited tags, s)
  handle_call s visited now (ping_client cid) = handle_ping s now cid

  -- `ApiServer`: with no address there is no interface.
  unfoldable pub api_server :
      Bytes
      → Option (Server float → List (Manager float) → ℤ → Call → Outcome (Reply × Server float))
  api_server addr = if bytes_eq addr [] then none else some handle_call
