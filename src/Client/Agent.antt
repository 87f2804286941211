-- ===== src/Client/Agent.antt =====
-- client/agent.go: the agent, the client's end of the control connection, and its three goroutines.
pub mod Laws
pub mod Steps
pub mod Race
use ae_ro_go.Base.{
  ℕ, suc, ◌+◌, Bool, true, false, List, [], ◌∷◌, Bytes, bytes_eq, codes, Option, none, some,
  if◌then◌else◌,
}
use ae_ro_go.Base.Int.{ℤ, pos, ◌+ℤ◌, ◌-ℤ◌, ◌*ℤ◌, ltb_ℤ, wrap64, halve}
use ae_ro_go.Base.Chan.{
  Chan, Outcome, done, blocked, panicked, make_chan, send, recv, close, ok_or_blocked,
}
use ae_ro_go.Base.Dict.{Dict, lookup, insert}
use ae_ro_go.Message.{
  Message, ProxyRequest, ProxyResponse, HeartbeatRequest, pipe_request, conn_request, login_request,
  login_response, proxy_request, proxy_response, heartbeat_request, heartbeat_response, other,
  Result, ok, err,
}
use ae_ro_go.Message.Frame.{Writer, Reader}
use ae_ro_go.Message.Codec.{Json}
use ae_ro_go.Message.Codec
use ae_ro_go.Client.{Client, Proxy}

-- A reading of the clock, in nanoseconds and as `UnixMicro` rounds it.
pub record Clock : Type 0 where
  pub nanos : ℤ
  pub micros : ℤ

abbrev pub second : ℤ
second = pos 1000000000

-- Times are in nanoseconds. `works` counts the calls `go agent.awaitWork()`, and `conn_closed` tells
-- whether the connection was closed. The ticker of `Run` counts from `ticker_from` on.
pub record Agent : Type 0 where
  pub client_id : Bytes
  pub conn_time : ℤ
  pub proxies : Dict Proxy
  pub recv_chan : Chan Message
  pub send_chan : Chan Message
  pub heartbeat_interval : ℤ
  pub last_beat_time : ℤ
  pub ticker_from : ℤ
  pub closed : Bool
  pub conn_closed : Bool
  pub works : ℕ

-- `NewAgent`
unfoldable pub new_agent : Client → Clock → Agent
new_agent client now = record {
  client_id = client.client_id;
  conn_time = now.nanos;
  proxies = client.config.proxies;
  recv_chan = make_chan 10;
  send_chan = make_chan 10;
  heartbeat_interval = wrap64 (second *ℤ client.config.heartbeat_interval);
  last_beat_time = pos 0;
  ticker_from = pos 0;
  closed = false;
  conn_closed = false;
  works = 0;
}

-- `agent.Proxies` is the client's own map, of pointers: what the agent has done to it is there for the
-- next agent of the client.
unfoldable pub give_back : Agent → Client → Client
give_back a client = record client { config = record client.config { proxies = a.proxies } }

-- `Close`, as its two calls of `close` end.
unfoldable pub close_agent : Agent → Outcome Agent
close_agent a =
    if a.closed
    then done a
    else ok_or_blocked (close a.recv_chan) λ r.
      ok_or_blocked (close a.send_chan)
        λ s. done (record a { closed = true; recv_chan = r; send_chan = s; conn_closed = true })

-- `RegisterProxy`, on the connection's writer.
unfoldable pub register_proxy : Json → Proxy → Agent → Writer → Result (Agent × Writer)
register_proxy json proxy a out =
    elim (Codec.send json
      (proxy_request (record {
        name = proxy.name;
        typ = proxy.typ;
        port = proxy.remote_port;
        target = proxy.local_addr;
        enable = true;
      }))
      out) [
        | err e ↦ err e
        | ok out' ↦ ok (record a { proxies = insert proxy.name proxy a.proxies }, out')
      ]

-- `time.NewTicker` and `ticker.Reset`, which panic on an interval that is not positive.
unfoldable pub reset_ticker : Clock → Agent → Outcome Agent
reset_ticker now a =
    if ltb_ℤ (pos 0) a.heartbeat_interval
    then done (record a { ticker_from = now.nanos })
    else panicked

-- What stands before the loop of `Run`, after the proxies are registered.
unfoldable pub start_heartbeat : Clock → Agent → Outcome Agent
start_heartbeat now a =
    ok_or_blocked (reset_ticker now a)
      λ b. done (record b { last_beat_time = now.nanos +ℤ halve b.heartbeat_interval })

-- `agent.sendChan <- m` in `Run`, where no panic is recovered.
send_on_chan : Agent → Message → Outcome (Bool × Agent)
send_on_chan a m = ok_or_blocked (send a.send_chan m) λ c. done (true, record a { send_chan = c })

-- The ticker's case of the `select`; `false` when the loop is left.
unfoldable pub run_tick : Clock → Agent → Outcome (Bool × Agent)
unfolding send_on_chan
run_tick now a =
    let ping = heartbeat_request (record { timestamp = now.micros }) in
    if ltb_ℤ (a.heartbeat_interval +ℤ second) (now.nanos -ℤ a.last_beat_time)
    then done (false, a)
    else send_on_chan a ping

-- A proxy response: the proxy is started if the answer is "ok" and the proxy is known.
unfoldable pub start_proxy : ProxyResponse → Dict Proxy → Dict Proxy
start_proxy v proxies =
    if bytes_eq v.result (codes "ok")
    then elim (lookup v.name proxies) [
      | none ↦ proxies
      | some proxy ↦ insert v.name (record proxy { started = true }) proxies
    ]
    else proxies

-- The `switch` on a message.
unfoldable pub handle_message : Clock → Agent → Message → Outcome (Bool × Agent)
unfolding start_proxy send_on_chan
handle_message now a (pipe_request v) = done (true, record a { works = suc a.works })
handle_message now a (proxy_response v) =
    done (true, record a { proxies = start_proxy v a.proxies })
handle_message now a (heartbeat_request v) = ok_or_blocked (reset_ticker now a) λ b.
    send_on_chan (record b { last_beat_time = now.nanos })
      (heartbeat_response (record { time_send = v.timestamp; time_recv = now.micros }))
handle_message now a (heartbeat_response v) =
    ok_or_blocked (reset_ticker now a) λ b. done (true, record b { last_beat_time = now.nanos })
handle_message now a _ = done (true, a)

handle_received : Clock → Agent → Option Message → Outcome (Bool × Agent)
unfolding handle_message
handle_received now a none = done (false, a)
handle_received now a (some msg) = handle_message now a msg

-- The channel's case of the `select`.
unfoldable pub run_receive : Clock → Agent → Outcome (Bool × Agent)
unfolding handle_received
run_receive now a =
    ok_or_blocked (recv a.recv_chan) λ r. handle_received now (record a { recv_chan = r.1 }) r.0

-- A goroutine that ends calls `Close`.
ending : Agent → Outcome (Bool × Agent)
ending a = ok_or_blocked (close_agent a) λ a'. done (false, a')

-- One round of `awaitReceive`, whose panics are recovered.
unfoldable pub receive_round : Result (Message × Reader) → Agent → Outcome (Bool × Agent)
unfolding ending
receive_round (err e) a = ending a
receive_round (ok (msg, reader)) a = if a.closed then ending a else elim (send a.recv_chan msg) [
  | done c ↦ done (true, record a { recv_chan = c })
  | blocked ↦ blocked
  | panicked ↦ done (false, a)
]

-- The next message of `awaitSend` goes to the connection.
write_next : Json → Agent → Writer → Option Message → Outcome (Bool × Agent × Writer)
write_next json a out none = ok_or_blocked (close_agent a) λ b. done (false, b, out)
write_next json a out (some msg) = elim (Codec.send json msg out) [
  | err e ↦ ok_or_blocked (close_agent a) λ b. done (false, b, out)
  | ok out' ↦ done (true, a, out')
]

-- One round of `awaitSend`.
unfoldable pub send_round : Json → Agent → Writer → Outcome (Bool × Agent × Writer)
unfolding write_next
send_round json a out =
    ok_or_blocked (recv a.send_chan) λ r. write_next json (record a { send_chan = r.1 }) out r.0
