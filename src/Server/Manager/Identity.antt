-- ===== src/Server/Manager/Identity.antt =====
-- server/manager.go: what no round but `Close` changes, the id and the flag of a manager.
use ae_ro_go.Base.{ℕ, ◌≡◌, refl, ◌∙◌, Bool, true, Option, none, some, Bool-cases, inl, inr, arith}
use mathlib.Core.Path.{subst}
use ae_ro_go.Base.Int.{ℤ}
use ae_ro_go.Base.Chan.{ok_or_blocked_inv, done, send, recv}
use ae_ro_go.Util.Ema.{Float}
use ae_ro_go.Message.{Message, proxy_request, Result, ok, err}
use ae_ro_go.Message.Frame.{Reader, Writer}
use ae_ro_go.Message.Codec.{Json}
use ae_ro_go.Server.World.{World}
use ae_ro_go.Server.Manager.{
  Manager, MgrError, Popped, send_message, req_pipe_conn, ping, push_pipe_conn, pop_select,
  pop_pipe_conn, get_message,
}
use ae_ro_go.Server.Manager.Proxies.{Env, register_proxy, remove_proxy, list_proxies}
use ae_ro_go.Server.Manager.Closing.{close_manager, finished}
use ae_ro_go.Server.Manager.Running.{
  Site, handle_message, respond, handle_received, run_round, receive_round, send_round,
}
use ae_ro_go.Server.Manager.Invariant.{Inv}
use ae_ro_go.Server.Manager.Release.{close_manager-finished, shut}
use ae_ro_go.Server.Manager.Steps.{Step, run, request, receive, write, push, pop, pinged, closes}

module _ (float : Float) where
  pub record Same (m m' : Manager float) : Type 0 where
    pub same_id : m'.client_id ≡ m.client_id
    pub same_flag : m'.closed ≡ m.closed

  Same-refl : (m : Manager float) → Same m m
  Same-refl m = record { same_id = refl; same_flag = refl }

  Same-trans : {a b c : Manager float} → Same a b → Same b c → Same a c
  Same-trans p q = record { same_id = q.same_id ∙ p.same_id; same_flag = q.same_flag ∙ p.same_flag }

  pub send_message-Same :
      (m : Manager float) (msg : Message) {e : Option MgrError} {m' : Manager float}
      → send_message float m msg ≡ done (e, m')
      → Same m m'
  unfolding send_message send
  send_message-Same m msg h = ground arith

  pub push_pipe_conn-Same : (m : Manager float) (c : ℕ) → Same m (push_pipe_conn float m c).1
  unfolding push_pipe_conn send
  push_pipe_conn-Same m c = ground arith

  pub get_message-Same :
      (m : Manager float) {o : Option Message} {m' : Manager float}
      → get_message float m ≡ done (o, m')
      → Same m m'
  unfolding get_message recv
  get_message-Same m h = ground arith

  pop_select-Same :
      (m : Manager float) (up : Bool) {p : Popped float} {m' : Manager float}
      → pop_select float m up ≡ done (p, m')
      → Same m m'
  unfolding pop_select recv
  pop_select-Same m up h = ground arith

  pub pop_pipe_conn-Same :
      (m : Manager float) (up : Bool) {p : Popped float} {m' : Manager float}
      → pop_pipe_conn float m up ≡ done (p, m')
      → Same m m'
  unfolding pop_pipe_conn req_pipe_conn
  pop_pipe_conn-Same m up h =
      let (r, e, h') = ok_or_blocked_inv _ _ h in
      Same-trans (send_message-Same m _ e) (pop_select-Same r.1 up h')

  ping-Same :
      (m : Manager float) (now : ℤ) {t : ℤ} {m' : Manager float}
      → ping float m now ≡ done (t, m')
      → Same m m'
  unfolding ping
  ping-Same m now {t} {m'} h =
      let (r, e, h') = ok_or_blocked_inv _ _ h in
      let same : r.1 ≡ m' = ground arith in subst (Same m) same (send_message-Same m _ e)

  -- The `switch` of `Run` leaves the channel that it reads alone, too.
  pub handle_message-Same :
      (env : Env) (s : Site float) (msg : Message)
      → Same s.mgr (handle_message float env s msg).1.mgr
        × ((handle_message float env s msg).1.mgr.recv_chan ≡ s.mgr.recv_chan)
  unfolding handle_message register_proxy remove_proxy list_proxies
  handle_message-Same env s (proxy_request r) = ground arith
  handle_message-Same env s _ = ground arith

  respond-Same :
      (o : Option Message) (s : Site float) {go : Bool} {s' : Site float}
      → respond float (o, s) ≡ done (go, s')
      → Same s.mgr s'.mgr
  unfolding respond
  respond-Same none s {s'} h =
      let same : s ≡ s' = cc in subst (λ x. Same s.mgr x.mgr) same (Same-refl s.mgr)
  respond-Same (some resp) s {s'} h =
      let (r, e, h') = ok_or_blocked_inv _ _ h in
      let same : r.1 ≡ s'.mgr = ground arith in
      subst (Same s.mgr) same (send_message-Same s.mgr resp e)

  received-Same :
      (env : Env) (s : Site float) (o : Option Message) {go : Bool} {s' : Site float}
      → handle_received float env s o ≡ done (go, s')
      → Same s.mgr s'.mgr
  unfolding handle_received
  received-Same env s none {s'} h =
      let same : s ≡ s' = cc in subst (λ x. Same s.mgr x.mgr) same (Same-refl s.mgr)
  received-Same env s (some msg) h =
      Same-trans (handle_message-Same env s msg).0
        (respond-Same (handle_message float env s msg).0 (handle_message float env s msg).1 h)

  pub run_round-Same :
      (env : Env) (s : Site float) {go : Bool} {s' : Site float}
      → run_round float env s ≡ done (go, s')
      → Same s.mgr s'.mgr
  unfolding run_round
  run_round-Same env s h =
      let (r, e, h') = ok_or_blocked_inv _ _ h in
      Same-trans (get_message-Same s.mgr e) (received-Same env (record s { mgr = r.1 }) r.0 h')

  -- A round keeps the id, and a closed manager closed.
  pub record Follows (m m' : Manager float) : Type 0 where
    pub keeps_id : m'.client_id ≡ m.client_id
    pub stays_closed : m.closed ≡ true → m'.closed ≡ true

  pub Same-Follows : {m m' : Manager float} → Same m m' → Follows m m'
  Same-Follows p = record { keeps_id = p.same_id; stays_closed = λ t. p.same_flag ∙ t }

  close_manager-Follows :
      (m : Manager float) (w : World) {m' : Manager float} {w' : World}
      → Inv float m
      → close_manager float m w ≡ finished m' w'
      → Follows m m'
  close_manager-Follows m w {m'} v h = elim (Bool-cases m.closed) [
    | inl t ↦
        let same : m ≡ m' = unfold close_manager in ground arith in
        subst (Follows m) same (Same-Follows (Same-refl m))
    | inr f ↦
        let fin = close_manager-finished float m w v f in
        let same : shut float m ≡ m' = cc in
        subst (Follows m) same (record { keeps_id = refl; stays_closed = λ _. refl })
  ]

  receive_round-Follows :
      (r : Result (Message × Reader)) (m : Manager float) (w : World) {go : Bool}
      {m' : Manager float} {w' : World}
      → Inv float m
      → receive_round float r m w ≡ done (go, m', w')
      → Follows m m'
  unfolding receive_round send
  receive_round-Follows (err e) m w v h = elim (Bool-cases m.closed) [
    | inl t ↦ unfold close_manager in ground arith
    | inr f ↦ let fin = close_manager-finished float m w v f in ground arith
  ]
  receive_round-Follows (ok (msg, reader)) m w v h = ground arith

  send_round-Same :
      (json : Json) (m : Manager float) (out : Writer) {go : Bool} {m' : Manager float}
      {out' : Writer}
      → send_round float json m out ≡ done (go, m', out')
      → Same m m'
  unfolding send_round recv
  send_round-Same json m out h = ground arith

  pub Step-Follows : {s t : Site float} → Step float s t → Inv float s.mgr → Follows s.mgr t.mgr
  Step-Follows {s} (run env h) v = Same-Follows (run_round-Same env s h)
  Step-Follows {s} (request h) v =
      Same-Follows (unfold req_pipe_conn in send_message-Same s.mgr _ h)
  Step-Follows {s} (receive r h) v = receive_round-Follows r s.mgr s.world v h
  Step-Follows {s} (write json out h) v = Same-Follows (send_round-Same json s.mgr out h)
  Step-Follows {s} (push c) v = Same-Follows (push_pipe_conn-Same s.mgr c)
  Step-Follows {s} (pop up h) v = Same-Follows (pop_pipe_conn-Same s.mgr up h)
  Step-Follows {s} (pinged now h) v = Same-Follows (ping-Same s.mgr now h)
  Step-Follows {s} (closes h) v = close_manager-Follows s.mgr s.world v h
