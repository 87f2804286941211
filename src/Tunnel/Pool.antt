-- ===== src/Tunnel/Pool.antt =====
-- client/client.go, server/server.go and server/manager.go: a pipe from `NewPipeConn` to the pool of
-- the client's manager, over the wire.
use ae_ro_go.Base.{
  ℕ, ◌≡◌, refl, sym, ◌⊎◌, inl, inr, true, false, [], ◌∷◌, ◌++◌, Bytes, none, some, All, length,
  get_elem?-All, Option-cases,
}
use mathlib.Core.Path.{subst}
use ae_ro_go.Base.Int.{ℤ}
use ae_ro_go.Util.Ema.{Float}
use ae_ro_go.Message.{PipeRequest, pipe_request}
use ae_ro_go.Message.Frame.{Reader, Writer}
use ae_ro_go.Message.Codec.{Json}
use ae_ro_go.Message.Delivery.{Delivered, get-Delivered}
use ae_ro_go.Server.World.{IsClosed}
use ae_ro_go.Server.Manager.{Manager, push_pipe_conn}
use ae_ro_go.Server.Manager.Invariant.{Inv, push_pipe_conn_lem}
use ae_ro_go.Server.Registry.{Server, find_manager}
use ae_ro_go.Server.Registry.Streams.{settle_push, handle_pipe, handle_first, handle_stream}
use ae_ro_go.Server.Registry.StreamLaws.{close_conn_closes, find_manager-heap, find_manager-put}
use ae_ro_go.Client.{Client}
use ae_ro_go.Client.Work.{made, new_pipe_conn}
use ae_ro_go.Tunnel.Work.{pipe_of}

module _ (float : Float) where
  -- Where the pipe of a client is, after the server has looked at it.
  abbrev pub Pooled : Server float → Server float → Bytes → ℕ → Type 0
  Pooled s s' id stream =
      ((find_manager float s id ≡ none) × IsClosed stream s'.world)
      ⊎ ((p : ℕ) × (m : Manager float) × (find_manager float s id ≡ some (p, m))
          × (((m.closed ≡ true) × IsClosed stream s'.world)
              ⊎ ((length m.pipe_conn_pool.buf ≡ m.pipe_conn_pool.cap) × IsClosed stream s'.world)
              ⊎ ((m.closed ≡ false)
                  × (m' : Manager float) × (find_manager float s' id ≡ some (p, m'))
                  × (m'.pipe_conn_pool.buf ≡ m.pipe_conn_pool.buf ++ stream ∷ []))))

  pooled :
      (s : Server float) (stream : ℕ) (id : Bytes) (p : ℕ) (m : Manager float)
      → find_manager float s id ≡ some (p, m)
      → Inv float m
      → Pooled s (settle_push float s stream p (push_pipe_conn float m stream)) id stream
  unfolding settle_push
  pooled s stream id p m found v = inr (
    p,
    m,
    found,
    elim (push_pipe_conn_lem float m stream v) [
      | inl (fine, up, last) ↦ inr (
          inr (
            up,
            (push_pipe_conn float m stream).1,
            rw (settle_push, fine) (find_manager-put float s id _ found),
            last,
          ))
      | inr (inl (bad, shut, same)) ↦ inl (shut, rw (settle_push, bad) (close_conn_closes stream _))
      | inr (inr (bad, same, full)) ↦
          inr (inl (full, rw (settle_push, bad) (close_conn_closes stream _)))
    ],
  )

  handle_pipe-Pooled :
      (s : Server float) (stream : ℕ) (v : PipeRequest)
      → All (Inv float) s.heap
      → Pooled s (handle_pipe float s stream v) v.client_id stream
  unfolding handle_pipe
  handle_pipe-Pooled s stream v inv = elim (Option-cases (find_manager float s v.client_id)) [
    | inl e ↦ inl (e, rw (e, handle_pipe) (close_conn_closes stream _))
    | inr ((p, m), e) ↦
        let (_, g) = find_manager-heap float s v.client_id e in
        let settled : handle_pipe float s stream v
            ≡ settle_push float s stream p (push_pipe_conn float m stream) =
          rw (handle_pipe, e) refl in
        subst (λ s'. Pooled s s' v.client_id stream) (sym settled)
          (pooled s stream v.client_id p m e (get_elem?-All (Inv float) s.heap p inv g))
  ]

  -- What the client announces on a pipe is delivered on a stream of the server. Then the client's
  -- pipe is made, and the server puts the stream last in the pool of the manager that it finds under
  -- the client's id; it closes the stream if there is no such manager, if that manager is closed, or
  -- if the pool is full.
  pub new_pipe_conn-handle_stream :
      (json : Json) (s : Server float) (stream : ℕ) (id : Bytes) (now : ℤ) (client : Client)
      (out out' : Writer) (reader : Reader) (rest : Bytes)
      → All (Inv float) s.heap
      → Delivered json (pipe_request (pipe_of client)) out out' reader rest
      → (new_pipe_conn json client (some out) ≡ made out')
        × Pooled s (handle_stream float json s stream id now reader) client.client_id stream
  unfolding new_pipe_conn handle_stream handle_first
  new_pipe_conn-handle_stream json s stream id now client out out' reader rest inv d =
      let (left, g, behind) = get-Delivered d in
      (rw (new_pipe_conn, d.sent) refl, rw (handle_stream, g) (handle_pipe-Pooled s stream _ inv))
