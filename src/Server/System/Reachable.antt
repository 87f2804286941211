-- ===== src/Server/System/Reachable.antt =====
-- server/server.go: the states of the whole server that a new one can reach.
use ae_ro_go.Base.{
  ℕ, ◌≡◌, refl, sym, ◌∙◌, inl, inr, true, Bytes, Option, none, some, length, length-set, get_elem?,
  get_elem?-lt, get_elem?-some, set, set_self, get_elem?-set_self, Option-cases, arith,
}
use mathlib.Core.Path.{subst}
use ae_ro_go.Base.Int.{ℤ}
use ae_ro_go.Base.Dict.{lookup, delete}
use ae_ro_go.Util.Ema.{Float}
use ae_ro_go.Netstat.Ports.{PortRange}
use ae_ro_go.Message.{Message, LoginRequest, PipeRequest, login_request, pipe_request, Result-cases}
use ae_ro_go.Message.Frame.{Reader}
use ae_ro_go.Message.Codec.{Json, get}
use ae_ro_go.Server.World.{World}
use ae_ro_go.Server.Manager.{Manager, MgrError, push_pipe_conn}
use ae_ro_go.Server.Manager.Closing.{close_manager, finished}
use ae_ro_go.Server.Manager.Invariant.{Inv, push_pipe_conn-Inv}
use ae_ro_go.Server.Manager.Identity.{
  Follows, Same-Follows, push_pipe_conn-Same, run_round-Same, Step-Follows,
}
use ae_ro_go.Server.Manager.Ending.{run_round_ends}
use ae_ro_go.Server.Manager.Steps
use ae_ro_go.Server.Registry.{Server, check_login, find_manager, put_manager, manager_done}
use ae_ro_go.Server.Registry.Streams.{
  handle_login, settle_push, handle_pipe, handle_first, handle_stream,
}
use ae_ro_go.Server.Registry.StreamLaws.{find_manager-heap}
use ae_ro_go.Server.System.{
  System, Phase, running, ended, buried, started, site, put, take_in, Step, stream, acts, ends,
  buries, Reach, here, later,
}
use ae_ro_go.Server.System.Invariant.{Sound, put-Sound}
use ae_ro_go.Server.System.Entries.{started_none, take_in-Sound, register-Sound, delete-Sound}

module _ (float : Float) where
  -- A method of a manager that keeps what the server relies on, in any phase but the end of `Run`.
  acts-Sound :
      (s : System float) (p : ℕ) (m m' : Manager float) (phase : Phase) (w : World)
      (range : PortRange)
      → Sound float s
      → get_elem? s.server.heap p ≡ some m
      → get_elem? s.phases p ≡ some phase
      → Inv float m'
      → Follows float m m'
      → Sound float (put float s p m' w range phase)
  acts-Sound s p m m' phase w range v at in_phase keeps follows =
      put-Sound float s p m m' phase phase v at in_phase keeps follows.keeps_id
        (elim (v.listed p m at) [ inl b ↦ inl (ground arith) | inr l ↦ inr l ])
        (elim (v.over p m at) [ inl r ↦ inl (ground arith) | inr t ↦ inr (follows.stays_closed t) ])
        w range

  push-Sound :
      (s : System float) (p : ℕ) (m : Manager float) (c : ℕ) (w : World)
      → Sound float s
      → get_elem? s.server.heap p ≡ some m
      → Sound float (
          take_in float s
            (record (put_manager float s.server p (push_pipe_conn float m c).1) { world = w }))
  unfolding put_manager
  push-Sound s p m c w v at =
      let m' = (push_pipe_conn float m c).1 in
      let (phase, in_phase) =
        get_elem?-lt s.phases p (
          let lt = get_elem?-some s.server.heap p at in let same_length = v.sized in omega arith) in
      let sized = sym (length-set s.server.heap p m') in
      let same : s.phases ≡ started (length (set s.server.heap p m')) s.phases =
        sym (started_none (length (set s.server.heap p m')) s.phases (v.sized ∙ sized)) in
      subst
        (λ phases. Sound float (record {
          server = record s.server { heap = set s.server.heap p m'; world = w };
          range = s.range;
          phases = phases;
        }))
        (set_self s.phases p in_phase ∙ same)
        (acts-Sound s p m m' phase w s.range v at in_phase
          (push_pipe_conn-Inv float m c (v.kept p m at))
          (Same-Follows float (push_pipe_conn-Same float m c)))

  settle_push-Sound :
      (s : System float) (p : ℕ) (m : Manager float) (c : ℕ)
      → Sound float s
      → get_elem? s.server.heap p ≡ some m
      → Sound float (take_in float s (settle_push float s.server c p (push_pipe_conn float m c)))
  settle_push-Sound s p m c v at = go (push_pipe_conn float m c).0 refl
    where
      go :
          (o : Option MgrError)
          → o ≡ (push_pipe_conn float m c).0
          → Sound float
              (take_in float s (settle_push float s.server c p (o, (push_pipe_conn float m c).1)))
      go none e = unfold settle_push put_manager in push-Sound s p m c s.server.world v at
      go (some why) e = unfold settle_push put_manager in push-Sound s p m c _ v at

  handle_login-Sound :
      (s : System float) (c : ℕ) (id : Bytes) (now : ℤ) (req : LoginRequest)
      → Sound float s
      → lookup id s.server.managers ≡ none
      → Sound float (take_in float s (handle_login float s.server c id now req))
  unfolding handle_login
  handle_login-Sound s c id now req v fresh =
      elim (Option-cases (check_login s.server.config req)) [
        | inl e ↦ rw (e, handle_login) (register-Sound float s c id now req v fresh _)
        | inr (why, e) ↦ rw (e, handle_login) (take_in-Sound float s _ v)
      ]

  handle_pipe-Sound :
      (s : System float) (c : ℕ) (req : PipeRequest)
      → Sound float s
      → Sound float (take_in float s (handle_pipe float s.server c req))
  unfolding handle_pipe
  handle_pipe-Sound s c req v = elim (Option-cases (find_manager float s.server req.client_id)) [
    | inl e ↦ rw (e, handle_pipe) (take_in-Sound float s _ v)
    | inr ((p, m), e) ↦
        rw (e, handle_pipe)
          (settle_push-Sound s p m c v (find_manager-heap float s.server req.client_id e).1)
  ]

  handle_stream-Sound :
      (s : System float) (json : Json) (c : ℕ) (id : Bytes) (now : ℤ) (reader : Reader)
      → Sound float s
      → lookup id s.server.managers ≡ none
      → Sound float (take_in float s (handle_stream float json s.server c id now reader))
  unfolding handle_stream handle_first
  handle_stream-Sound s json c id now reader v fresh = elim (Result-cases (get json reader)) [
    | inl ((msg, rest), e) ↦ rw (e, handle_stream) (first msg)
    | inr (x, e) ↦ rw (e, handle_stream) (take_in-Sound float s _ v)
  ]
    where
      first :
          (msg : Message) → Sound float (take_in float s (handle_first float s.server c id now msg))
      first (login_request req) = handle_login-Sound s c id now req v fresh
      first (pipe_request req) = handle_pipe-Sound s c req v
      first _ = take_in-Sound float s _ v

  -- The manager behind the pointer is closed once its `Run` has ended.
  pub ended-closed :
      (s : System float) (p : ℕ) (m : Manager float)
      → Sound float s
      → get_elem? s.server.heap p ≡ some m
      → get_elem? s.phases p ≡ some ended
      → m.closed ≡ true
  ended-closed s p m v at gone = elim (v.over p m at) [ inl r ↦ cc | inr t ↦ t ]

  pub manager_done-closed :
      (s : Server float) (p : ℕ) (m : Manager float)
      → get_elem? s.heap p ≡ some m
      → m.closed ≡ true
      → manager_done float s p m ≡ (true, record s { managers = delete m.client_id s.managers })
  unfolding manager_done close_manager
  manager_done-closed s p m at c =
      let e : close_manager float m s.world ≡ finished m s.world = ground arith in
      rw (e, manager_done, set_self s.heap p at) refl

  buries-Sound :
      (s : System float) (p : ℕ) (m : Manager float)
      → Sound float s
      → get_elem? s.server.heap p ≡ some m
      → get_elem? s.phases p ≡ some ended
      → Sound float (record s {
        server = (manager_done float s.server p m).1;
        phases = set s.phases p buried;
      })
  buries-Sound s p m v at gone =
      let c = ended-closed s p m v at gone in
      let keeps = v.kept p m at in
      let dug =
        put-Sound float s p m m ended buried v at gone keeps refl (inl refl) (inr c) s.server.world
          s.range in
      rw (manager_done-closed s.server p m at c) (
        subst
          (λ h. Sound float (record {
            server = record s.server { managers = delete m.client_id s.server.managers; heap = h };
            range = s.range;
            phases = set s.phases p buried;
          }))
          (set_self s.server.heap p at)
          (delete-Sound float (put float s p m s.server.world s.range buried) p m dug
            (get_elem?-set_self s.phases p buried gone)
            (elim (v.listed p m at) [ inl b ↦ cc | inr l ↦ l ])))

  Step-Sound : {s t : System float} → Step float s t → Sound float s → Sound float t
  Step-Sound {s} (stream json c id now reader fresh) v =
      handle_stream-Sound s json c id now reader v fresh
  Step-Sound {s} (acts p m phase {t} at in_phase step) v =
      let keeps = v.kept p m at in
      acts-Sound s p m t.mgr phase t.world t.range v at in_phase (Steps.Step-Inv float step keeps)
        (Step-Follows float step keeps)
  Step-Sound {s} (ends p m env {t} at in_phase h) v =
      let keeps = v.kept p m at in
      let same = run_round-Same float env (site float s m) h in
      put-Sound float s p m t.mgr running ended v at in_phase
        (Steps.Step-Inv float (Steps.run env h) keeps) same.same_id
        (elim (v.listed p m at) [ inl b ↦ cc | inr l ↦ inr l ])
        (inr (same.same_flag ∙ run_round_ends float env (site float s m) keeps h)) t.world t.range
  Step-Sound {s} (buries p m at gone) v = buries-Sound s p m v at gone

  pub Reach-Sound : {s t : System float} → Reach float s t → Sound float s → Sound float t
  Reach-Sound here v = v
  Reach-Sound (later r step) v = Step-Sound step (Reach-Sound r v)
