-- ===== src/Server/Manager/Steps.antt =====
-- server/manager.go: the goroutines of one manager, interleaved in any order, a round of one of them
-- at a time. A round that blocks is no step, nor is one that panics.
use ae_ro_go.Base.{
  ℕ, ◌≡◌, Bool, Bytes, Option, none, some, [], ◌∷◌, length-append, Bool-cases, inl, inr, arith,
}
use mathlib.Core.Path.{subst}
use ae_ro_go.Base.Int.{ℤ}
use ae_ro_go.Base.Chan.{ok_or_blocked_inv, done, send, recv}
use ae_ro_go.Util.Ema.{Float}
use ae_ro_go.Netstat.Ports.{PortRange}
use ae_ro_go.Message.{
  Message, LoginRequest, Result, ok, err, proxy_request, heartbeat_request, heartbeat_response,
}
use ae_ro_go.Message.Frame.{Reader, Writer}
use ae_ro_go.Message.Codec.{Json}
use ae_ro_go.Server.World.{World}
use ae_ro_go.Server.Manager.{
  Manager, MgrError, Popped, new_manager, req_pipe_conn, ping, push_pipe_conn, pop_pipe_conn,
}
use ae_ro_go.Server.Manager.Proxies.{Env, register_proxy, remove_proxy, list_proxies}
use ae_ro_go.Server.Manager.Closing.{close_manager, finished}
use ae_ro_go.Server.Manager.Running.{
  Site, handle_message, respond, handle_received, run_round, receive_round, send_round,
}
use ae_ro_go.Server.Manager.Invariant.{
  Inv, new_manager-Inv, register_proxy-Inv, remove_proxy-Inv, list_proxies-Inv, send_message-Inv,
  push_pipe_conn-Inv, get_message-Inv, pop_select-Inv,
}
use ae_ro_go.Server.Manager.Release.{close_manager-finished, shut, shut-Inv}

module _ (float : Float) where
  pub data Step (s : Site float) : Site float → Type 0 where
    run :
        (env : Env) {go : Bool} {s' : Site float}
        → run_round float env s ≡ done (go, s')
        → Step s s'
    request :
        {e : Option MgrError} {m : Manager float}
        → req_pipe_conn float s.mgr ≡ done (e, m)
        → Step s (record s { mgr = m })
    receive :
        (r : Result (Message × Reader)) {go : Bool} {m : Manager float} {w : World}
        → receive_round float r s.mgr s.world ≡ done (go, m, w)
        → Step s (record s { mgr = m; world = w })
    write :
        (json : Json) (out : Writer) {go : Bool} {m : Manager float} {out' : Writer}
        → send_round float json s.mgr out ≡ done (go, m, out')
        → Step s (record s { mgr = m })
    push : (c : ℕ) → Step s (record s { mgr = (push_pipe_conn float s.mgr c).1 })
    pop :
        (time_is_up : Bool) {p : Popped float} {m : Manager float}
        → pop_pipe_conn float s.mgr time_is_up ≡ done (p, m)
        → Step s (record s { mgr = m })
    pinged :
        (now : ℤ) {t : ℤ} {m : Manager float}
        → ping float s.mgr now ≡ done (t, m)
        → Step s (record s { mgr = m })
    closes :
        {m : Manager float} {w : World}
        → close_manager float s.mgr s.world ≡ finished m w
        → Step s (record s { mgr = m; world = w })

  pub data Reach (s : Site float) : Site float → Type 0 where
    here : Reach s s
    later : {t u : Site float} → Reach s t → Step t u → Reach s u

  pop_pipe_conn-Inv :
      (m : Manager float) (up : Bool) {p : Popped float} {m' : Manager float}
      → Inv float m
      → pop_pipe_conn float m up ≡ done (p, m')
      → Inv float m'
  unfolding pop_pipe_conn req_pipe_conn
  pop_pipe_conn-Inv m up v h =
      let (r, e, h') = ok_or_blocked_inv _ _ h in
      pop_select-Inv float r.1 up (send_message-Inv float m _ v e) h'

  ping-Inv :
      (m : Manager float) (now : ℤ) {t : ℤ} {m' : Manager float}
      → Inv float m
      → ping float m now ≡ done (t, m')
      → Inv float m'
  unfolding ping
  ping-Inv m now {t} {m'} v h =
      let (r, e, h') = ok_or_blocked_inv _ _ h in
      let same : r.1 ≡ m' = ground arith in subst (Inv float) same (send_message-Inv float m _ v e)

  close_manager-Inv :
      (m : Manager float) (w : World) {m' : Manager float} {w' : World}
      → Inv float m
      → close_manager float m w ≡ finished m' w'
      → Inv float m'
  close_manager-Inv m w {m'} v h = elim (Bool-cases m.closed) [
    | inl t ↦ let same : m ≡ m' = unfold close_manager in ground arith in subst (Inv float) same v
    | inr f ↦
        let e = close_manager-finished float m w v f in
        let same : shut float m ≡ m' = cc in subst (Inv float) same (shut-Inv float m v)
  ]

  handle_message-Inv :
      (env : Env) (s : Site float) (msg : Message)
      → Inv float s.mgr
      → Inv float (handle_message float env s msg).1.mgr
  unfolding handle_message register_proxy remove_proxy list_proxies
  handle_message-Inv env s (proxy_request r) v = elim (Bool-cases r.enable) [
    | inl t ↦
        rw t (list_proxies-Inv float _ (register_proxy-Inv float env s.mgr r s.range s.world v))
    | inr f ↦ rw f (list_proxies-Inv float _ (remove_proxy-Inv float s.mgr r s.world v))
  ]
  handle_message-Inv env s (heartbeat_request r) v = ground arith
  handle_message-Inv env s (heartbeat_response r) v = ground arith
  handle_message-Inv env s _ v = v

  respond-Inv :
      (o : Option Message) (s : Site float) {go : Bool} {s' : Site float}
      → Inv float s.mgr
      → respond float (o, s) ≡ done (go, s')
      → Inv float s'.mgr
  unfolding respond
  respond-Inv none s {s'} v h = let same : s ≡ s' = cc in subst (λ x. Inv float x.mgr) same v
  respond-Inv (some resp) s {s'} v h =
      let (r, e, h') = ok_or_blocked_inv _ _ h in
      let same : r.1 ≡ s'.mgr = ground arith in
      subst (Inv float) same (send_message-Inv float s.mgr resp v e)

  received-Inv :
      (env : Env) (s : Site float) (o : Option Message) {go : Bool} {s' : Site float}
      → Inv float s.mgr
      → handle_received float env s o ≡ done (go, s')
      → Inv float s'.mgr
  unfolding handle_received
  received-Inv env s none {s'} v h = let same : s ≡ s' = cc in subst (λ x. Inv float x.mgr) same v
  received-Inv env s (some msg) v h =
      respond-Inv (handle_message float env s msg).0 (handle_message float env s msg).1
        (handle_message-Inv env s msg v) h

  run_round-Inv :
      (env : Env) (s : Site float) {go : Bool} {s' : Site float}
      → Inv float s.mgr
      → run_round float env s ≡ done (go, s')
      → Inv float s'.mgr
  unfolding run_round
  run_round-Inv env s v h =
      let (r, e, h') = ok_or_blocked_inv _ _ h in
      received-Inv env (record s { mgr = r.1 }) r.0 (get_message-Inv float s.mgr v e) h'

  receive_round-Inv :
      (r : Result (Message × Reader)) (m : Manager float) (w : World) {go : Bool}
      {m' : Manager float} {w' : World}
      → Inv float m
      → receive_round float r m w ≡ done (go, m', w')
      → Inv float m'
  unfolding receive_round send
  receive_round-Inv (err e) m w {m'} v h = elim (Bool-cases m.closed) [
    | inl t ↦ unfold close_manager in ground arith
    | inr f ↦
        let fin = close_manager-finished float m w v f in
        let same : shut float m ≡ m' = ground arith in subst (Inv float) same (shut-Inv float m v)
  ]
  receive_round-Inv (ok (msg, reader)) m w v h =
      ground (arith, length-append m.recv_chan.buf (msg ∷ []))

  send_round-Inv :
      (json : Json) (m : Manager float) (out : Writer) {go : Bool} {m' : Manager float}
      {out' : Writer}
      → Inv float m
      → send_round float json m out ≡ done (go, m', out')
      → Inv float m'
  unfolding send_round recv
  send_round-Inv json m out v h = ground arith

  pub Step-Inv : {s t : Site float} → Step s t → Inv float s.mgr → Inv float t.mgr
  Step-Inv {s} (run env h) v = run_round-Inv env s v h
  Step-Inv {s} (request h) v = unfold req_pipe_conn in send_message-Inv float s.mgr _ v h
  Step-Inv {s} (receive r h) v = receive_round-Inv r s.mgr s.world v h
  Step-Inv {s} (write json out h) v = send_round-Inv json s.mgr out v h
  Step-Inv {s} (push c) v = push_pipe_conn-Inv float s.mgr c v
  Step-Inv {s} (pop up h) v = pop_pipe_conn-Inv s.mgr up v h
  Step-Inv {s} (pinged now h) v = ping-Inv s.mgr now v h
  Step-Inv {s} (closes h) v = close_manager-Inv s.mgr s.world v h

  Reach-Inv : {s t : Site float} → Reach s t → Inv float s.mgr → Inv float t.mgr
  Reach-Inv here v = v
  Reach-Inv (later r st) v = Step-Inv st (Reach-Inv r v)

  -- In every state that a new manager can reach by rounds of its goroutines, in any order, the flag
  -- and the three channels are closed together, no buffer overflows, and the pool has two places for
  -- each of the 1 to 8 pipes.
  pub Reach-new_manager-Inv :
      (id : Bytes) (conn : ℕ) (now : ℤ) (req : LoginRequest) (range : PortRange) (w : World)
      {t : Site float}
      → Reach (record { mgr = new_manager float id conn now req; range = range; world = w }) t
      → Inv float t.mgr
  Reach-new_manager-Inv id conn now req range w r =
      Reach-Inv r (new_manager-Inv float id conn now req)
