-- ===== src/Server/Manager/Ending.antt =====
-- server/manager.go: when `Run` ends, when a pipe can be waited for without end, and what `Run` can
-- still do after `Close`.
use ae_ro_go.Base.{
  ℕ, zero, suc, ◌<◌, ◌≡◌, ◌↔◌, refl, sym, ap, ◌∙◌, inl, inr, Bool, true, false, List, [], ◌∷◌,
  Option, none, some, length, Bool-cases, Bytes, arith,
}
use ae_ro_go.Base.Chan.{ok_or_blocked_inv, done, blocked, send, recv}
use ae_ro_go.Base.Eq.{contains, ℕ_eq}
use ae_ro_go.Util.Ema.{Float}
use ae_ro_go.Message.{Message, ProxyRequest, proxy_request, proxy_response}
use ae_ro_go.Base.Decimal.{itoa}
use ae_ro_go.Netstat.Ports.{PortRange, find_available_port}
use ae_ro_go.Server.World.{World, IsOpen, listen}
use ae_ro_go.Server.Proxy.{listening, new_proxy}
use ae_ro_go.Server.Manager.{
  Manager, send_message, req_pipe_conn, pop_select, pop_pipe_conn, get_message,
}
use ae_ro_go.Server.Manager.Proxies.{Env, requested_port, register_proxy}
use ae_ro_go.Server.Manager.Closing.{close_manager, finished}
use ae_ro_go.Server.Manager.Running.{
  Site, handle_message, respond, handle_received, run_round, run_loop,
}
use ae_ro_go.Server.Manager.Invariant.{Inv}
use ae_ro_go.Server.Manager.Identity.{handle_message-Same, get_message-Same}

module _ (float : Float) where
  -- The answer of a round leaves the loop only on the error of a closed manager.
  respond_ends :
      (o : Option Message) (s : Site float) {s' : Site float}
      → respond float (o, s) ≡ done (false, s')
      → s.mgr.closed ≡ true
  unfolding respond send_message send
  respond_ends none s h = cc
  respond_ends (some resp) s h = ground arith

  received_ends :
      (env : Env) (s : Site float) (o : Option Message) (m : Manager float) {s' : Site float}
      → Inv float s.mgr
      → get_message float s.mgr ≡ done (o, m)
      → handle_received float env (record s { mgr = m }) o ≡ done (false, s')
      → s.mgr.closed ≡ true
  unfolding get_message recv handle_received
  received_ends env s none m v e h = ground (arith, v.recv_closed)
  received_ends env s (some msg) m v e h =
      let r = handle_message float env (record s { mgr = m }) msg in
      let kept = (handle_message-Same float env (record s { mgr = m }) msg).0 in
      sym (get_message-Same float s.mgr e).same_flag ∙ sym kept.same_flag ∙ respond_ends r.0 r.1 h

  -- `Run` of a manager that keeps the invariant leaves its loop only when the manager is closed.
  pub run_round_ends :
      (env : Env) (s : Site float) {s' : Site float}
      → Inv float s.mgr
      → run_round float env s ≡ done (false, s')
      → s.mgr.closed ≡ true
  unfolding run_round
  run_round_ends env s v h =
      let (r, e, h') = ok_or_blocked_inv _ _ h in received_ends env s r.0 r.1 v e h'

  -- A message of a closed manager: the loop goes on without an answer, or ends with one.
  respond_closed :
      (o : Option Message) (s : Site float)
      → s.mgr.closed ≡ true
      → (go : Bool) × (respond float (o, s) ≡ done (go, s))
  unfolding respond send_message
  respond_closed none s c = (true, refl)
  respond_closed (some resp) s c = (false, ground arith)

  respond_refused :
      (resp : Message) (s : Site float)
      → s.mgr.closed ≡ true
      → respond float (some resp, s) ≡ done (false, s)
  unfolding respond send_message
  respond_refused resp s c = ground arith

  Drained : Manager float → List Message → Type 0
  Drained m rest = (m.closed ≡ true) × (m.recv_chan.closed ≡ true) × (m.recv_chan.buf ≡ rest)

  get_message_next :
      (m : Manager float) (msg : Message) (rest : List Message)
      → m.recv_chan.buf ≡ msg ∷ rest
      → get_message float m
        ≡ done (some msg, record m { recv_chan = record m.recv_chan { buf = rest } })
  unfolding get_message recv
  get_message_next m msg rest b = ground arith

  run_round_empty :
      (env : Env) (s : Site float) → Drained s.mgr [] → run_round float env s ≡ done (false, s)
  unfolding run_round handle_received get_message recv Drained
  run_round_empty env s (c, rc, b) = ground arith

  run_round_closed :
      (env : Env) (s : Site float) (msg : Message) (rest : List Message)
      → Drained s.mgr (msg ∷ rest)
      → (go : Bool) × (s' : Site float) × (run_round float env s ≡ done (go, s'))
        × Drained s'.mgr rest
  unfolding run_round handle_received get_message recv Drained
  run_round_closed env s msg rest (c, rc, b) =
      let m = record s.mgr { recv_chan = record s.mgr.recv_chan { buf = rest } } in
      let r = handle_message float env (record s { mgr = m }) msg in
      let (kept, chan) = handle_message-Same float env (record s { mgr = m }) msg in
      let (go, e) = respond_closed r.0 r.1 (kept.same_flag ∙ c) in
      (
        go,
        r.1,
        rw (get_message_next s.mgr msg rest b, run_round) e,
        (kept.same_flag ∙ c, ap (λ k. k.closed) chan ∙ rc, ap (λ k. k.buf) chan),
      )

  run_loop-Drained :
      (n : ℕ) (env : ℕ → Env) (s : Site float) (waiting : List Message)
      → Drained s.mgr waiting
      → length waiting < n
      → (s' : Site float) × (run_loop float n env s ≡ some (done s')) × (s'.mgr.closed ≡ true)
  unfolding run_loop Drained
  run_loop-Drained zero env s waiting d h = absurd (omega arith)
  run_loop-Drained (suc n) env s [] d h = (s, rw (run_round_empty (env n) s d, run_loop) refl, d.0)
  run_loop-Drained (suc n) env s (msg ∷ rest) d h =
      let (go, s', e, d') = run_round_closed (env n) s msg rest d in
      let (s2, e2, c2) = run_loop-Drained n env s' rest d' (omega arith) in
      elim (Bool-cases go) [
        | inl t ↦ (s2, rw (e, run_loop, t) e2, c2)
        | inr f ↦ (s', rw (e, run_loop, f) refl, d'.0)
      ]

  -- Once a manager is closed, its `Run` comes to an end: neither a full channel nor an answer holds it
  -- up, and it takes at most one round more than messages wait for it.
  pub run_loop_ends :
      (env : ℕ → Env) (s : Site float)
      → Inv float s.mgr
      → s.mgr.closed ≡ true
      → (s' : Site float) × (run_loop float (suc (length s.mgr.recv_chan.buf)) env s
          ≡ some (done s'))
        × (s'.mgr.closed ≡ true)
  unfolding Drained
  run_loop_ends env s v c =
      run_loop-Drained _ env s s.mgr.recv_chan.buf (c, v.recv_closed ∙ c, refl) (omega arith)

  -- `PopPipeConn` of a manager that keeps the invariant waits, also when its five seconds are over,
  -- exactly if the manager is open and its send channel is full.
  pub pop_pipe_conn_waits :
      (m : Manager float)
      → Inv float m
      → (pop_pipe_conn float m true ≡ blocked)
        ↔ ((m.closed ≡ false) × (length m.send_chan.buf ≡ m.send_chan.cap))
  unfolding pop_pipe_conn req_pipe_conn send_message send pop_select recv
  pop_pipe_conn_waits m v = ((λ h. ground arith), (λ h. ground arith))

  register_proxy_opens :
      (env : Env) (m : Manager float) (req : ProxyRequest) (range : PortRange) (w : World)
      → ((addr : Bytes) → (at : Bytes) × (env.answer addr ≡ listening at))
      → IsOpen w.next_listener (register_proxy float env m req range w).3
  unfolding register_proxy new_proxy listen contains
  register_proxy_opens env m req range w up =
      let port = itoa (find_available_port env.probe (requested_port req.port) range).0 in
      let (at, e) = up (b':' ∷ port) in rw (e, register_proxy, new_proxy) (ground arith)

  registers :
      (env : Env) (s : Site float) (req : ProxyRequest)
      → req.enable ≡ true
      → ((addr : Bytes) → (at : Bytes) × (env.answer addr ≡ listening at))
      → let r = handle_message float env s (proxy_request req) in
        (resp : Message) × (r.0 ≡ some resp) × IsOpen s.world.next_listener r.1.world
  unfolding handle_message
  registers env s req enabled up = (
    proxy_response (register_proxy float env s.mgr req s.range s.world).0,
    ground arith,
    ground (arith, register_proxy_opens env s.mgr req s.range s.world up),
  )

  -- If the first message that waits in the channel of a closed manager asks for a new proxy, and
  -- `net.Listen` succeeds at every address, then the next round of `Run` opens a listener and ends the
  -- loop, and no later `Close` of the manager changes anything.
  pub run_round_leaks :
      (env : Env) (s : Site float) (req : ProxyRequest) (rest : List Message)
      → s.mgr.closed ≡ true
      → s.mgr.recv_chan.buf ≡ proxy_request req ∷ rest
      → req.enable ≡ true
      → ((addr : Bytes) → (at : Bytes) × (env.answer addr ≡ listening at))
      → (s' : Site float) × (run_round float env s ≡ done (false, s'))
        × IsOpen s.world.next_listener s'.world
        × ((w : World) → close_manager float s'.mgr w ≡ finished s'.mgr w)
  unfolding run_round handle_received respond send_message
  run_round_leaks env s req rest c b enabled up =
      let m = record s.mgr { recv_chan = record s.mgr.recv_chan { buf = rest } } in
      let (resp, e, opened) = registers env (record s { mgr = m }) req enabled up in
      let s' = (handle_message float env (record s { mgr = m }) (proxy_request req)).1 in
      let same = (handle_message-Same float env (record s { mgr = m }) (proxy_request req)).0 in
      let c' : s'.mgr.closed ≡ true = same.same_flag ∙ c in
      (
        s',
        rw (get_message_next s.mgr _ rest b, run_round)
            (ap (λ o. respond float (o, s')) e ∙ respond_refused resp s' c'),
        opened,
        (λ w. unfold close_manager in ground arith),
      )
