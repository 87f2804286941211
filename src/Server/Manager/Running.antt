-- ===== src/Server/Manager/Running.antt =====
-- server/manager.go: `Run`, a message at a time, and the goroutines `awaitReceive` and `awaitSend`.
use ae_ro_go.Base.{ℕ, zero, suc, Bool, true, false, Option, none, some, if◌then◌else◌}
use ae_ro_go.Base.Int.{◌-ℤ◌, wrap64, halve}
use ae_ro_go.Base.Chan.{ok_or_blocked, Outcome, done, blocked, panicked, send, recv}
use ae_ro_go.Util.Ema.{Float, update}
use ae_ro_go.Netstat.Ports.{PortRange}
use ae_ro_go.Message.{
  Message, HeartbeatRequest, HeartbeatResponse, ProxyRequest, heartbeat_request, heartbeat_response,
  proxy_request, proxy_response, Result, ok, err,
}
use ae_ro_go.Message.Frame.{Reader, Writer}
use ae_ro_go.Message.Codec.{Json}
use ae_ro_go.Message.Codec
use ae_ro_go.Server.World.{World}
use ae_ro_go.Server.Manager.{Manager, send_message, req_pipe_conn, get_message}
use ae_ro_go.Server.Manager.Proxies.{Env, register_proxy, remove_proxy, list_proxies}
use ae_ro_go.Server.Manager.Closing.{close_manager, finished, crashed}

module _ (float : Float) where
  -- A manager with what it shares: the port range of the package and the system.
  pub record Site : Type 0 where
    pub mgr : Manager float
    pub range : PortRange
    pub world : World

  heartbeat_in : Env → Site → HeartbeatRequest → Option Message × Site
  heartbeat_in env s v = (
    some (heartbeat_response (record { time_send = v.timestamp; time_recv = env.now })),
    record s {
      mgr = record m {
        last_beat_time = env.now;
        latency = update float m.latency (wrap64 (env.now -ℤ v.timestamp));
      };
    },
  )
    where
      m : Manager float
      m = s.mgr

  heartbeat_back : Env → Site → HeartbeatResponse → Option Message × Site
  heartbeat_back env s v = (
    none,
    record s {
      mgr = record m {
        last_beat_time = env.now;
        latency = update float m.latency (halve (wrap64 (env.now -ℤ v.time_send)));
      };
    },
  )
    where
      m : Manager float
      m = s.mgr

  proxy_in : Env → Site → ProxyRequest → Option Message × Site
  proxy_in env s v =
      let (resp, m, range, w) = register_proxy float env s.mgr v s.range s.world in
      let (m', w') = remove_proxy float s.mgr v s.world in
      if v.enable
      then (
        some (proxy_response resp),
        record { mgr = list_proxies float m; range = range; world = w },
      )
      else (none, record { mgr = list_proxies float m'; range = s.range; world = w' })

  -- The `switch` of `Run`: the response, if there is one, and the new state.
  unfoldable pub handle_message : Env → Site → Message → Option Message × Site
  unfolding heartbeat_in heartbeat_back proxy_in
  handle_message env s (heartbeat_request v) = heartbeat_in env s v
  handle_message env s (heartbeat_response v) = heartbeat_back env s v
  handle_message env s (proxy_request v) = proxy_in env s v
  handle_message env s _ = (none, s)

  -- The end of a round: the response is sent; the loop is left on an error.
  unfoldable pub respond : Option Message × Site → Outcome (Bool × Site)
  respond (none, s) = done (true, s)
  respond (some resp, s) = ok_or_blocked (send_message float s.mgr resp) λ r. elim r.0 [
    | none ↦ done (true, record s { mgr = r.1 })
    | some e ↦ done (false, record s { mgr = r.1 })
  ]

  unfoldable pub handle_received : Env → Site → Option Message → Outcome (Bool × Site)
  unfolding respond
  handle_received env s none = done (false, s)
  handle_received env s (some msg) = respond (handle_message env s msg)

  -- One round of the loop of `Run`; `false` when it is left.
  unfoldable pub run_round : Env → Site → Outcome (Bool × Site)
  unfolding handle_received
  run_round env s =
      ok_or_blocked (get_message float s.mgr) λ r. handle_received env (record s { mgr = r.1 }) r.0

  -- The loop of `Run`: `rounds` are left, and the system stands at each as `env` says. `none` is a loop
  -- that goes on when they are used up.
  unfoldable pub run_loop : ℕ → (ℕ → Env) → Site → Option (Outcome Site)
  run_loop zero env s = none
  run_loop (suc rounds) env s = elim (run_round (env rounds) s) [
    | done (true, s') ↦ run_loop rounds env s'
    | done (false, s') ↦ some (done s')
    | blocked ↦ some blocked
    | panicked ↦ some panicked
  ]

  -- The pipe requests at the start of `Run`, whose errors are not looked at; `n` are left.
  unfoldable pub request_pipes : ℕ → Manager float → Outcome (Manager float)
  request_pipes zero m = done m
  request_pipes (suc n) m = ok_or_blocked (req_pipe_conn float m) λ r. request_pipes n r.1

  -- One round of `awaitReceive`: what `message.Get` gave is put on the channel, or the manager is
  -- closed. `false` when the goroutine ends; a panic is recovered, and ends it too.
  unfoldable pub receive_round :
      Result (Message × Reader) → Manager float → World → Outcome (Bool × Manager float × World)
  receive_round (err e) m w = elim (close_manager float m w) [
    | finished m' w' ↦ done (false, m', w')
    | crashed m' w' ↦ done (false, m', w')
  ]
  receive_round (ok (msg, reader)) m w =
      if m.closed then done (false, m, w) else elim (send m.recv_chan msg) [
        | done c ↦ done (true, record m { recv_chan = c }, w)
        | blocked ↦ blocked
        | panicked ↦ done (false, m, w)
      ]

  -- One round of `awaitSend`: the next message of the channel is written to the connection.
  unfoldable pub send_round :
      Json → Manager float → Writer → Outcome (Bool × Manager float × Writer)
  send_round json m out = ok_or_blocked (recv m.send_chan) λ r. elim r.0 [
    | none ↦ done (false, record m { send_chan = r.1 }, out)
    | some msg ↦ elim (Codec.send json msg out) [
      | ok out' ↦ done (true, record m { send_chan = r.1 }, out')
      | err e ↦ done (false, record m { send_chan = r.1 }, out)
    ]
  ]
