-- ===== src/Client/Agent/Laws.antt =====
-- client/agent.go: the invariant of an agent, and when a round of `Run` panics.
use ae_ro_go.Base.{◌≡◌, ◌↔◌, ◌⊎◌, refl, true, false, List, [], ◌∷◌, Bool-cases, inl, inr, arith}
use ae_ro_go.Base.Int.{pos, ltb_ℤ, ◌+ℤ◌, ◌-ℤ◌}
use ae_ro_go.Base.Chan.{Fits, done, panicked, send, recv, close}
use ae_ro_go.Message.{
  Message, HeartbeatRequest, HeartbeatResponse, heartbeat_request, heartbeat_response,
}
use ae_ro_go.Client.{Client}
use ae_ro_go.Client.Agent.{
  Clock, Agent, second, new_agent, close_agent, run_tick, run_receive, handle_message,
  handle_received, send_on_chan, reset_ticker,
}

-- The flag, the two channels and the connection are closed together, and no buffer overflows.
pub record Inv (a : Agent) : Type 0 where
  pub recv_closed : a.recv_chan.closed ≡ a.closed
  pub send_closed : a.send_chan.closed ≡ a.closed
  pub conn_too : a.conn_closed ≡ a.closed
  pub recv_fits : Fits a.recv_chan
  pub send_fits : Fits a.send_chan

pub new_agent-Inv : (client : Client) (now : Clock) → Inv (new_agent client now)
unfolding new_agent
new_agent-Inv client now = record {
  recv_closed = refl;
  send_closed = refl;
  conn_too = refl;
  recv_fits = omega arith;
  send_fits = omega arith;
}

-- `Close` of an agent that keeps the invariant never panics: it ends with the agent closed and the
-- invariant kept, whether the agent was open or not.
pub close_agent-Inv :
    (a : Agent) → Inv a → (a' : Agent) × (close_agent a ≡ done a') × Inv a' × (a'.closed ≡ true)
unfolding close_agent close
close_agent-Inv a v = elim (Bool-cases a.closed) [
  | inl t ↦ (a, rw (t, close_agent) refl, v, t)
  | inr f ↦ (
    record a {
      closed = true;
      recv_chan = record a.recv_chan { closed = true };
      send_chan = record a.send_chan { closed = true };
      conn_closed = true;
    },
    ground (arith, v.recv_closed, v.send_closed),
    record {
      recv_closed = refl;
      send_closed = refl;
      conn_too = refl;
      recv_fits = v.recv_fits;
      send_fits = v.send_fits;
    },
    refl,
  )
]

-- The heartbeat of an agent that keeps the invariant panics in `Run` exactly if the agent is closed
-- and the heartbeat is not overdue.
pub run_tick_panics :
    (now : Clock) (a : Agent)
    → Inv a
    → (run_tick now a ≡ panicked) ↔ (
        (a.closed ≡ true)
        × (ltb_ℤ (a.heartbeat_interval +ℤ second) (now.nanos -ℤ a.last_beat_time) ≡ false))
unfolding run_tick send_on_chan send
run_tick_panics now a v = (λ h. ground (arith, v.send_closed), λ h. ground (arith, v.send_closed))

-- A heartbeat of the server waits first, or its answer to one of the agent.
abbrev pub BeatFirst : List Message → Type 0
BeatFirst buf = (v : HeartbeatRequest) × (rest : List Message) × (buf ≡ heartbeat_request v ∷ rest)

abbrev pub EchoFirst : List Message → Type 0
EchoFirst buf =
    (v : HeartbeatResponse) × (rest : List Message) × (buf ≡ heartbeat_response v ∷ rest)

-- For an agent that keeps the invariant, a round of `Run` on a message panics exactly if the message
-- that waits first is a heartbeat of the server and the agent is closed or its interval is not
-- positive, or if it is the answer to a heartbeat and the interval is not positive.
pub run_receive_panics :
    (now : Clock) (a : Agent)
    → Inv a
    → (run_receive now a ≡ panicked) ↔ (
        (((a.closed ≡ true) ⊎ (ltb_ℤ (pos 0) a.heartbeat_interval ≡ false))
          × BeatFirst a.recv_chan.buf)
        ⊎ ((ltb_ℤ (pos 0) a.heartbeat_interval ≡ false) × EchoFirst a.recv_chan.buf))
unfolding run_receive handle_received recv handle_message reset_ticker send_on_chan send
run_receive_panics now a v = go a.recv_chan.buf refl
  where
    go :
        (buf : List Message)
        → a.recv_chan.buf ≡ buf
        → (run_receive now a ≡ panicked) ↔ (
            (((a.closed ≡ true) ⊎ (ltb_ℤ (pos 0) a.heartbeat_interval ≡ false))
              × BeatFirst a.recv_chan.buf)
            ⊎ ((ltb_ℤ (pos 0) a.heartbeat_interval ≡ false) × EchoFirst a.recv_chan.buf))
    go [] e = (
      λ h. ground (arith, v.recv_closed),
      λ h. elim h [ inl (x, (w, more, k)) ↦ cc | inr (x, (w, more, k)) ↦ cc ],
    )
    go (heartbeat_request r ∷ rest) e = (
      (λ h. inl (
        (elim (Bool-cases (ltb_ℤ (pos 0) a.heartbeat_interval)) [
          | inl t ↦ inl (ground (arith, v.send_closed))
          | inr f ↦ inr f
        ]),
        (r, rest, e),
      )),
      (λ h. elim h [
        | inl (inl c, more) ↦ ground (arith, v.send_closed)
        | inl (inr f, more) ↦ ground arith
        | inr (f, (w, more, k)) ↦ cc
      ]),
    )
    go (heartbeat_response r ∷ rest) e = (
      (λ h. inr (ground arith, (r, rest, e))),
      (λ h. elim h [ inl (x, (w, more, k)) ↦ cc | inr (f, more) ↦ ground arith ]),
    )
    go (m ∷ rest) e = (
      (λ h. ground arith),
      (λ h. elim h [ inl (x, (w, more, k)) ↦ cc | inr (x, (w, more, k)) ↦ cc ]),
    )
