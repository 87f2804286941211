-- ===== src/Server/Registry/StreamLaws.antt =====
-- server/server.go: where `HandleStream` leaves a stream, and who may log in.
use ae_ro_go.Base.{
  ℕ, ◌≡◌, ◌↔◌, refl, ◌∙◌, inl, inr, true, [], ◌∷◌, Bytes, bytes_eq_iff, Option, none, some, All,
  length, get_elem?, get_elem?-append_last, get_elem?-set_self, get_elem?-All, ==_iff, Option-cases,
  arith,
}
use ae_ro_go.Base.Int.{ℤ}
use ae_ro_go.Base.Chan.{send}
use ae_ro_go.Base.Eq.{contains, contains-append, ℕ_eq}
use ae_ro_go.Base.Dict.{lookup, lookup-insert_self}
use ae_ro_go.Util.Ema.{Float}
use ae_ro_go.Util.Legal.{check_legal_iff, IsWordByte}
use ae_ro_go.Message.{Message, LoginRequest, PipeRequest, login_request, pipe_request, Result-cases}
use ae_ro_go.Message.Frame.{Reader}
use ae_ro_go.Message.Codec.{Json, get}
use ae_ro_go.Server.World.{World, close_conn, IsClosed}
use ae_ro_go.Server.Manager.{Manager, new_manager, push_pipe_conn, MgrError}
use ae_ro_go.Server.Manager.Invariant.{Inv}
use ae_ro_go.Server.Registry.{
  Server, ServerConfig, check_login, register_manager, find_manager, put_manager,
}
use ae_ro_go.Server.Registry.Streams.{
  handle_login, settle_push, handle_pipe, handle_first, handle_stream,
}

-- A login passes exactly if the code is the server's and the tag is made of letters, digits, dashes
-- and underscores.
pub check_login_iff :
    (config : ServerConfig) (req : LoginRequest)
    → (check_login config req ≡ none)
      ↔ ((config.auth_code ≡ req.auth_code) × All IsWordByte req.tag)
unfolding check_login
check_login_iff config req = (
  λ h. (
    ground (arith, bytes_eq_iff config.auth_code req.auth_code),
    (check_legal_iff req.tag).0 (ground arith),
  ),
  λ h.
      ground (
        arith,
        (bytes_eq_iff config.auth_code req.auth_code).1 h.0,
        (check_legal_iff req.tag).1 h.1,
      ),
)

pub close_conn_closes : (c : ℕ) (w : World) → IsClosed c (close_conn c w)
unfolding close_conn contains
close_conn_closes c w = ground arith

module _ (float : Float) where
  -- Where a stream is, once the server has looked at its first message.
  pub data Kept (s : Server float) (c : ℕ) : Type 0 where
    closed : IsClosed c s.world → Kept s c
    control :
        (id : Bytes) (p : ℕ) (m : Manager float)
        → find_manager float s id ≡ some (p, m)
        → m.conn ≡ c
        → Kept s c
    pooled :
        (id : Bytes) (p : ℕ) (m : Manager float)
        → find_manager float s id ≡ some (p, m)
        → contains m.pipe_conn_pool.buf c ≡ true
        → Kept s c

  pub find_manager-of :
      (s : Server float) (id : Bytes) (p : ℕ) (m : Manager float)
      → lookup id s.managers ≡ some p
      → get_elem? s.heap p ≡ some m
      → find_manager float s id ≡ some (p, m)
  unfolding find_manager
  find_manager-of s id p m e g = ground arith

  pub find_manager-heap :
      (s : Server float) (id : Bytes) {p : ℕ} {m : Manager float}
      → find_manager float s id ≡ some (p, m)
      → (lookup id s.managers ≡ some p) × (get_elem? s.heap p ≡ some m)
  unfolding find_manager
  find_manager-heap s id h = ground arith

  pub find_manager-register :
      (s : Server float) (conn : ℕ) (id : Bytes) (now : ℤ) (req : LoginRequest)
      → find_manager float (register_manager float s conn id now req) id
        ≡ some (length s.heap, new_manager float id conn now req)
  unfolding register_manager
  find_manager-register s conn id now req =
      find_manager-of _ id _ _ (lookup-insert_self id (length s.heap) s.managers)
        (get_elem?-append_last s.heap (new_manager float id conn now req))

  pub find_manager-put :
      (s : Server float) (id : Bytes) (m' : Manager float) {p : ℕ} {m : Manager float}
      → find_manager float s id ≡ some (p, m)
      → find_manager float (put_manager float s p m') id ≡ some (p, m')
  unfolding put_manager
  find_manager-put s id m' {p} h =
      let (e, g) = find_manager-heap s id h in
      find_manager-of _ id p m' e (get_elem?-set_self s.heap p m' g)

  pub find_manager-world :
      (s : Server float) (w : World) (id : Bytes)
      → find_manager float (record s { world = w }) id ≡ find_manager float s id
  unfolding find_manager
  find_manager-world s w id = refl

  push_pipe_conn-pooled :
      (m : Manager float) (c : ℕ) {m' : Manager float}
      → Inv float m
      → push_pipe_conn float m c ≡ (none, m')
      → contains m'.pipe_conn_pool.buf c ≡ true
  unfolding push_pipe_conn send contains
  push_pipe_conn-pooled m c v h =
      ground (arith, contains-append m.pipe_conn_pool.buf (c ∷ []) c, ==_iff c c)

  settle_push-Kept :
      (s : Server float) (stream : ℕ) (id : Bytes) (p : ℕ) (m : Manager float)
      → find_manager float s id ≡ some (p, m)
      → Inv float m
      → Kept (settle_push float s stream p (push_pipe_conn float m stream)) stream
  settle_push-Kept s stream id p m h v = go (push_pipe_conn float m stream) refl
    where
      go :
          (r : Option MgrError × Manager float)
          → push_pipe_conn float m stream ≡ r
          → Kept (settle_push float s stream p r) stream
      go (none, m') e =
          pooled id p m' (unfold settle_push in find_manager-put s id m' h)
            (push_pipe_conn-pooled m stream v e)
      go (some why, m') e = unfold settle_push in closed (close_conn_closes stream _)

  handle_login-Kept :
      (s : Server float) (stream : ℕ) (id : Bytes) (now : ℤ) (v : LoginRequest)
      → Kept (handle_login float s stream id now v) stream
  unfolding handle_login
  handle_login-Kept s stream id now v = elim (Option-cases (check_login s.config v)) [
    | inl e ↦
        rw (e, handle_login)
          (control id (length s.heap) (new_manager float id stream now v)
            (find_manager-world _ _ id ∙ find_manager-register s stream id now v)
            (unfold new_manager in refl))
    | inr (why, e) ↦ rw (e, handle_login) (closed (close_conn_closes stream _))
  ]

  handle_pipe-Kept :
      (s : Server float) (stream : ℕ) (v : PipeRequest)
      → All (Inv float) s.heap
      → Kept (handle_pipe float s stream v) stream
  unfolding handle_pipe
  handle_pipe-Kept s stream v inv = elim (Option-cases (find_manager float s v.client_id)) [
    | inl e ↦ rw (e, handle_pipe) (closed (close_conn_closes stream _))
    | inr ((p, m), e) ↦
        let (_, g) = find_manager-heap s v.client_id e in
        rw (e, handle_pipe)
          (settle_push-Kept s stream v.client_id p m e (get_elem?-All (Inv float) s.heap p inv g))
  ]

  -- If every manager keeps its invariant, then once `HandleStream` is done with a new stream, the
  -- stream is closed, or it is the control connection of a manager of the map, or it lies in the
  -- pool of one: none is forgotten open.
  pub handle_stream-Kept :
      (json : Json) (s : Server float) (stream : ℕ) (id : Bytes) (now : ℤ) (reader : Reader)
      → All (Inv float) s.heap
      → Kept (handle_stream float json s stream id now reader) stream
  unfolding handle_stream handle_first
  handle_stream-Kept json s stream id now reader inv = elim (Result-cases (get json reader)) [
    | inl ((msg, rest), e) ↦ rw (e, handle_stream) (first msg)
    | inr (x, e) ↦ rw (e, handle_stream) (closed (close_conn_closes stream _))
  ]
    where
      first : (msg : Message) → Kept (handle_first float s stream id now msg) stream
      first (login_request v) = handle_login-Kept s stream id now v
      first (pipe_request v) = handle_pipe-Kept s stream v inv
      first _ = closed (close_conn_closes stream _)
