-- ===== src/Client/Agent/Steps.antt =====
-- client/agent.go: the goroutines of an agent, interleaved in any order, a round of one of them at a
-- time.
use ae_ro_go.Base.{
  ◌≡◌, refl, Bool, true, false, [], ◌∷◌, Option, none, some, length-append, Bool-cases, inl, inr,
  arith,
}
use mathlib.Core.Path.{subst}
use ae_ro_go.Base.Int.{ltb_ℤ, ◌+ℤ◌, ◌-ℤ◌}
use ae_ro_go.Base.Chan.{Chan, Outcome, done, send, recv, ok_or_blocked, ok_or_blocked_inv}
use ae_ro_go.Message.{Message, heartbeat_request, heartbeat_response, Result, ok, err, Result-cases}
use ae_ro_go.Message.Frame.{Writer, Reader}
use ae_ro_go.Message.Codec.{Json}
use ae_ro_go.Message.Codec
use ae_ro_go.Client.{Client, Proxy}
use ae_ro_go.Client.Agent.{
  Clock, Agent, second, new_agent, close_agent, register_proxy, start_heartbeat, run_tick,
  run_receive, handle_message, receive_round, send_round, handle_received, write_next, send_on_chan,
  ending, reset_ticker,
}
use ae_ro_go.Client.Agent.Laws.{Inv, new_agent-Inv, close_agent-Inv}

pub data Step (a : Agent) : Agent → Type 0 where
  registers :
      (json : Json) (proxy : Proxy) (out out' : Writer) {b : Agent}
      → register_proxy json proxy a out ≡ ok (b, out')
      → Step a b
  starts : (now : Clock) {b : Agent} → start_heartbeat now a ≡ done b → Step a b
  ticks : (now : Clock) {go : Bool} {b : Agent} → run_tick now a ≡ done (go, b) → Step a b
  receives : (now : Clock) {go : Bool} {b : Agent} → run_receive now a ≡ done (go, b) → Step a b
  reads :
      (r : Result (Message × Reader)) {go : Bool} {b : Agent}
      → receive_round r a ≡ done (go, b)
      → Step a b
  writes :
      (json : Json) (out out' : Writer) {go : Bool} {b : Agent}
      → send_round json a out ≡ done (go, b, out')
      → Step a b
  closes : {b : Agent} → close_agent a ≡ done b → Step a b

send_on_chan-Inv :
    (a : Agent) (m : Message) {go : Bool} {b : Agent}
    → Inv a
    → send_on_chan a m ≡ done (go, b)
    → Inv b
unfolding send_on_chan send
send_on_chan-Inv a m v h = ground (arith, length-append a.send_chan.buf (m ∷ []))

reset_ticker-Inv :
    (now : Clock) (a : Agent) {b : Agent} → Inv a → reset_ticker now a ≡ done b → Inv b
unfolding reset_ticker
reset_ticker-Inv now a v h = ground arith

beaten : (now : Clock) (a : Agent) → Inv a → Inv (record a { last_beat_time = now.nanos })
beaten now a v = record {
  recv_closed = v.recv_closed;
  send_closed = v.send_closed;
  conn_too = v.conn_too;
  recv_fits = v.recv_fits;
  send_fits = v.send_fits;
}

done_second :
    (o : Outcome (Bool × Agent)) {go : Bool} {a b : Agent}
    → o ≡ done (true, a)
    → o ≡ done (go, b)
    → a ≡ b
done_second o e h = cc

handle_message-Inv :
    (now : Clock) (a : Agent) (m : Message) {go : Bool} {b : Agent}
    → Inv a
    → handle_message now a m ≡ done (go, b)
    → Inv b
unfolding handle_message
handle_message-Inv now a (heartbeat_request r) v h =
    let (b', e, h') = ok_or_blocked_inv _ _ h in
    send_on_chan-Inv (record b' { last_beat_time = now.nanos }) _
      (beaten now b' (reset_ticker-Inv now a v e)) h'
handle_message-Inv now a (heartbeat_response r) {b} v h =
    let (b', e, h') = ok_or_blocked_inv _ _ h in
    let same = done_second _ refl h' in subst Inv same (beaten now b' (reset_ticker-Inv now a v e))
handle_message-Inv now a _ v h = ground arith

close_agent_kept : (a : Agent) {b : Agent} → Inv a → close_agent a ≡ done b → Inv b
close_agent_kept a {b} v h =
    let (a', e, v', t) = close_agent-Inv a v in let same : a' ≡ b = cc in subst Inv same v'

ending-Inv : (a : Agent) {go : Bool} {b : Agent} → Inv a → ending a ≡ done (go, b) → Inv b
unfolding ending
ending-Inv a {b} v h =
    let (a', e, h') = ok_or_blocked_inv _ _ h in
    let same : a' ≡ b = cc in subst Inv same (close_agent_kept a v e)

recv-Inv :
    (a : Agent) {o : Option Message} {c : Chan Message}
    → Inv a
    → recv a.recv_chan ≡ done (o, c)
    → Inv (record a { recv_chan = c })
unfolding recv
recv-Inv a v h = ground arith

handle_received-Inv :
    (now : Clock) (a : Agent) (o : Option Message) {go : Bool} {b : Agent}
    → Inv a
    → handle_received now a o ≡ done (go, b)
    → Inv b
unfolding handle_received
handle_received-Inv now a none {b} v h = let same : a ≡ b = cc in subst Inv same v
handle_received-Inv now a (some msg) v h = handle_message-Inv now a msg v h

run_receive-Inv :
    (now : Clock) (a : Agent) {go : Bool} {b : Agent}
    → Inv a
    → run_receive now a ≡ done (go, b)
    → Inv b
unfolding run_receive
run_receive-Inv now a v h =
    let (r, e, h') = ok_or_blocked_inv _ _ h in
    handle_received-Inv now (record a { recv_chan = r.1 }) r.0 (recv-Inv a v e) h'

receive_round-Inv :
    (r : Result (Message × Reader)) (a : Agent) {go : Bool} {b : Agent}
    → Inv a
    → receive_round r a ≡ done (go, b)
    → Inv b
unfolding receive_round send
receive_round-Inv (err e) a v h = ending-Inv a v h
receive_round-Inv (ok (msg, reader)) a v h = elim (Bool-cases a.closed) [
  | inl t ↦ unfold ending in unfold close_agent in ground arith
  | inr f ↦ ground (arith, length-append a.recv_chan.buf (msg ∷ []))
]

drained-Inv :
    (a : Agent) {o : Option Message} {c : Chan Message}
    → Inv a
    → recv a.send_chan ≡ done (o, c)
    → Inv (record a { send_chan = c })
unfolding recv
drained-Inv a v h = ground arith

stopped-Inv :
    (a : Agent) (out out' : Writer) {go : Bool} {b : Agent}
    → Inv a
    → ok_or_blocked {B = Bool × Agent × Writer} (close_agent a) (λ c. done (false, c, out))
      ≡ done (go, b, out')
    → Inv b
stopped-Inv a out out' {b} v h =
    let (a', e, h') = ok_or_blocked_inv _ _ h in
    let same : a' ≡ b = cc in subst Inv same (close_agent_kept a v e)

write_next-Inv :
    (json : Json) (a : Agent) (out out' : Writer) (o : Option Message) {go : Bool} {b : Agent}
    → Inv a
    → write_next json a out o ≡ done (go, b, out')
    → Inv b
unfolding write_next
write_next-Inv json a out out' none v h = stopped-Inv a out out' v h
write_next-Inv json a out out' (some msg) {b} v h = elim (Result-cases (Codec.send json msg out)) [
  | inl (w, e) ↦ let same : a ≡ b = cc (rw (e, write_next) at h) in subst Inv same v
  | inr (x, e) ↦ stopped-Inv a out out' v (rw (e, write_next) at h)
]

send_round-Inv :
    (json : Json) (a : Agent) (out out' : Writer) {go : Bool} {b : Agent}
    → Inv a
    → send_round json a out ≡ done (go, b, out')
    → Inv b
unfolding send_round
send_round-Inv json a out out' v h =
    let (r, e, h') = ok_or_blocked_inv _ _ h in
    write_next-Inv json (record a { send_chan = r.1 }) out out' r.0 (drained-Inv a v e) h'

Step-Inv : {a b : Agent} → Step a b → Inv a → Inv b
unfolding register_proxy start_heartbeat reset_ticker run_tick
Step-Inv {a} (registers json proxy out out' h) v = ground arith
Step-Inv {a} (starts now h) v = ground arith
Step-Inv {a} (ticks now h) v =
    elim (Bool-cases (ltb_ℤ (a.heartbeat_interval +ℤ second) (now.nanos -ℤ a.last_beat_time))) [
      | inl late ↦ ground arith
      | inr f ↦ send_on_chan-Inv a _ v (rw (f, run_tick) at h)
    ]
Step-Inv {a} (receives now h) v = run_receive-Inv now a v h
Step-Inv {a} (reads r h) v = receive_round-Inv r a v h
Step-Inv {a} (writes json out out' h) v = send_round-Inv json a out out' v h
Step-Inv {a} (closes h) v = close_agent_kept a v h

pub data Reach (a : Agent) : Agent → Type 0 where
  here : Reach a a
  later : {b c : Agent} → Reach a b → Step b c → Reach a c

Reach-Inv : {a b : Agent} → Reach a b → Inv a → Inv b
Reach-Inv here v = v
Reach-Inv (later r st) v = Step-Inv st (Reach-Inv r v)

-- In every state that a new agent can reach by rounds of its goroutines, in any order, the flag, the
-- two channels and the connection are closed together, and no buffer overflows.
pub Reach-new_agent-Inv :
    (client : Client) (now : Clock) {b : Agent} → Reach (new_agent client now) b → Inv b
Reach-new_agent-Inv client now r = Reach-Inv r (new_agent-Inv client now)
