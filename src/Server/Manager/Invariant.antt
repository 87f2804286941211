-- ===== src/Server/Manager/Invariant.antt =====
-- server/manager.go: the invariant of a manager, and the operations one by one.
use ae_ro_go.Base.{
  ℕ, ◌*◌, ◌≡◌, refl, Bool, true, false, [], ◌∷◌, ◌++◌, Bytes, Option, none, some, length,
  length-append, ◌⊎◌, arith,
}
use ae_ro_go.Base.Int.{ℤ, pos, ◌≤ℤ◌, pos_part}
use ae_ro_go.Base.Chan.{Fits, done, send, recv}
use ae_ro_go.Util.Ema.{Float}
use ae_ro_go.Netstat.Ports.{PortRange}
use ae_ro_go.Message.{Message, LoginRequest, ProxyRequest}
use ae_ro_go.Server.World.{World}
use ae_ro_go.Server.Manager.{
  Manager, MgrError, mgr_closed, pool_full, Popped, pool_size_for, new_manager, send_message,
  push_pipe_conn, pop_select, get_message,
}
use ae_ro_go.Server.Manager.Proxies.{Env, register_proxy, remove_proxy, list_proxies}

pub pool_size_for_bounds :
    (asked : ℤ) → (pos 1 ≤ℤ pool_size_for asked) × (pool_size_for asked ≤ℤ pos 8)
unfolding pool_size_for
pool_size_for_bounds asked = ground arith

module _ (float : Float) where
  -- The flag and the three channels are closed together, no buffer overflows, and the pool has two
  -- places for each of the 1 to 8 pipes.
  pub record Inv (m : Manager float) : Type 0 where
    pub send_closed : m.send_chan.closed ≡ m.closed
    pub recv_closed : m.recv_chan.closed ≡ m.closed
    pub pool_closed : m.pipe_conn_pool.closed ≡ m.closed
    pub send_fits : Fits m.send_chan
    pub recv_fits : Fits m.recv_chan
    pub pool_fits : Fits m.pipe_conn_pool
    pub pool_cap : m.pipe_conn_pool.cap ≡ pos_part m.pool_size * 2
    pub pool_low : pos 1 ≤ℤ m.pool_size
    pub pool_high : m.pool_size ≤ℤ pos 8

  pub new_manager-Inv :
      (id : Bytes) (conn : ℕ) (now : ℤ) (req : LoginRequest)
      → Inv (new_manager float id conn now req)
  unfolding new_manager
  new_manager-Inv id conn now req = record {
    send_closed = refl;
    recv_closed = refl;
    pool_closed = refl;
    send_fits = omega arith;
    recv_fits = omega arith;
    pool_fits = omega arith;
    pool_cap = refl;
    pool_low = (pool_size_for_bounds req.pool_size).0;
    pool_high = (pool_size_for_bounds req.pool_size).1;
  }

  pub send_message-Inv :
      (m : Manager float) (msg : Message) {e : Option MgrError} {m' : Manager float}
      → Inv m
      → send_message float m msg ≡ done (e, m')
      → Inv m'
  unfolding send_message send
  send_message-Inv m msg v h = ground (arith, length-append m.send_chan.buf (msg ∷ []))

  pub push_pipe_conn-Inv : (m : Manager float) (c : ℕ) → Inv m → Inv (push_pipe_conn float m c).1
  unfolding push_pipe_conn send
  push_pipe_conn-Inv m c v = ground (arith, length-append m.pipe_conn_pool.buf (c ∷ []))

  pub get_message-Inv :
      (m : Manager float) {o : Option Message} {m' : Manager float}
      → Inv m
      → get_message float m ≡ done (o, m')
      → Inv m'
  unfolding get_message recv
  get_message-Inv m v h = ground arith

  pub pop_select-Inv :
      (m : Manager float) (up : Bool) {p : Popped float} {m' : Manager float}
      → Inv m
      → pop_select float m up ≡ done (p, m')
      → Inv m'
  unfolding pop_select recv
  pop_select-Inv m up v h = ground arith

  -- Of a manager that keeps the invariant, `PushPipeConn` returns nil only if the manager is open
  -- and the pipe is then the newest of the pool, and an error only if the manager is as it was and
  -- is closed, or its pool is full.
  pub push_pipe_conn_lem :
      (m : Manager float) (c : ℕ)
      → Inv m
      → let (e, m') = push_pipe_conn float m c in
        ((e ≡ none) × (m.closed ≡ false) × (m'.pipe_conn_pool.buf ≡ m.pipe_conn_pool.buf ++ c ∷ []))
        ⊎ ((e ≡ some mgr_closed) × (m.closed ≡ true) × (m' ≡ m))
        ⊎ ((e ≡ some pool_full) × (m' ≡ m) × (length m.pipe_conn_pool.buf ≡ m.pipe_conn_pool.cap))
  unfolding push_pipe_conn send
  push_pipe_conn_lem m c v = ground arith

  pub register_proxy-Inv :
      (env : Env) (m : Manager float) (req : ProxyRequest) (range : PortRange) (w : World)
      → Inv m
      → Inv (register_proxy float env m req range w).1
  unfolding register_proxy
  register_proxy-Inv env m req range w v = ground arith

  pub remove_proxy-Inv :
      (m : Manager float) (req : ProxyRequest) (w : World)
      → Inv m
      → Inv (remove_proxy float m req w).0
  unfolding remove_proxy
  remove_proxy-Inv m req w v = ground arith

  pub list_proxies-Inv : (m : Manager float) → Inv m → Inv (list_proxies float m)
  unfolding list_proxies
  list_proxies-Inv m v = ground arith
