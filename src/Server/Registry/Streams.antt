-- ===== src/Server/Registry/Streams.antt =====
-- server/server.go: `HandleStream`, from the first message of a new stream on.
use ae_ro_go.Base.{ℕ, [], ◌++◌, Bytes, codes, Option, none, some}
use ae_ro_go.Base.Int.{ℤ}
use ae_ro_go.Util.Ema.{Float}
use ae_ro_go.Message.{
  Message, LoginRequest, PipeRequest, login_request, login_response, pipe_request, ok, err,
}
use ae_ro_go.Message.Frame.{Reader}
use ae_ro_go.Message.Codec.{Json, get}
use ae_ro_go.Server.World.{World, close_conn, send_on}
use ae_ro_go.Server.Manager.{Manager, MgrError, push_pipe_conn}
use ae_ro_go.Server.Registry.{Server, check_login, register_manager, find_manager, put_manager}

module _ (float : Float) where
  abbrev on_world : (World → World) → Server float → Server float
  on_world f s = record s { world = f s.world }

  -- `id` is what `genId` gives, if the login passes.
  unfoldable pub handle_login : Server float → ℕ → Bytes → ℤ → LoginRequest → Server float
  handle_login s stream id now v = elim (check_login s.config v) [
    | some why ↦
        on_world
          (λ w. close_conn stream (
            send_on stream
              (login_response (record { client_id = []; result = codes "login fail:" ++ why })) w))
          s
    | none ↦
        on_world (send_on stream (login_response (record { client_id = id; result = codes "ok" })))
          (register_manager float s stream id now v)
  ]

  -- The end of the case: the stream is closed if `PushPipeConn` gave an error.
  unfoldable pub settle_push : Server float → ℕ → ℕ → Option MgrError × Manager float → Server float
  settle_push s stream p (none, m) = put_manager float s p m
  settle_push s stream p (some why, m) = on_world (close_conn stream) (put_manager float s p m)

  unfoldable pub handle_pipe : Server float → ℕ → PipeRequest → Server float
  unfolding settle_push
  handle_pipe s stream v = elim (find_manager float s v.client_id) [
    | none ↦ on_world (close_conn stream) s
    | some (p, m) ↦ settle_push s stream p (push_pipe_conn float m stream)
  ]

  unfoldable pub handle_first : Server float → ℕ → Bytes → ℤ → Message → Server float
  unfolding handle_login handle_pipe
  handle_first s stream id now (login_request v) = handle_login s stream id now v
  handle_first s stream id now (pipe_request v) = handle_pipe s stream v
  handle_first s stream id now _ = on_world (close_conn stream) s

  -- `HandleStream`. A deadline that passes shows as the reader's last error.
  unfoldable pub handle_stream : Json → Server float → ℕ → Bytes → ℤ → Reader → Server float
  unfolding handle_first
  handle_stream json s stream id now reader = elim (get json reader) [
    | err e ↦ on_world (close_conn stream) s
    | ok (msg, rest) ↦ handle_first s stream id now msg
  ]
