-- ===== src/Client/Handshake.antt =====
-- client/client.go and server/server.go: a login, from the client's request to what the client makes
-- of the server's answer.
use ae_ro_go.Base.{
  ℕ, ◌≡◌, refl, ◌∙◌, ◌⊎◌, inl, inr, [], ◌∷◌, ◌++◌, Bytes, bytes_eq, codes, none, some, length, All,
  Option-cases,
}
use ae_ro_go.Base.Int.{ℤ}
use ae_ro_go.Util.Ema.{Float}
use ae_ro_go.Util.Legal.{IsWordByte}
use ae_ro_go.Message.{Message, login_response}
use ae_ro_go.Server.World.{IsClosed, close_conn, send_on}
use ae_ro_go.Server.Manager.{new_manager}
use ae_ro_go.Server.Registry.{Server, check_login, find_manager, register_manager}
use ae_ro_go.Server.Registry.Streams.{handle_login}
use ae_ro_go.Server.Registry.StreamLaws.{
  check_login_iff, find_manager-world, find_manager-register, close_conn_closes,
}
use ae_ro_go.Client.{Client}
use ae_ro_go.Client.Login.{refused, login_req_of, settle_login}

module _ (float : Float) where
  -- The client has logged in, under the id by which the server finds the manager of its connection.
  abbrev pub Accepted : Server float → ℕ → Bytes → ℤ → Client → Bytes → Message → Type 0
  Accepted s stream id now client os msg =
      (s.config.auth_code ≡ client.config.auth_code)
      × All IsWordByte client.config.tag
      × (settle_login msg client ≡ (none, record client { client_id = id }))
      × (find_manager float (handle_login float s stream id now (login_req_of client os)) id
          ≡ some (length s.heap, new_manager float id stream now (login_req_of client os)))

  -- The client has an error with the server's reason, and the server has closed the stream.
  abbrev pub Refused : Server float → ℕ → Bytes → ℤ → Client → Bytes → Message → Type 0
  Refused s stream id now client os msg =
      (why : Bytes) × (check_login s.config (login_req_of client os) ≡ some why)
      × (settle_login msg client ≡ (some (refused (codes "login fail:" ++ why)), client))
      × IsClosed stream (handle_login float s stream id now (login_req_of client os)).world

  -- A login ends in one of two ways, on both sides alike: the code and the tag are right, the client
  -- has taken the id, and the server finds the client's manager under it; or the server has closed
  -- the stream, and the client reports the server's reason.
  pub settle_login-handle_login :
      (s : Server float) (stream : ℕ) (id : Bytes) (now : ℤ) (client : Client) (os : Bytes)
      → (msg : Message) × ((handle_login float s stream id now (login_req_of client os)).world.sent
          ≡ (stream, msg) ∷ s.world.sent)
        × (Accepted s stream id now client os msg ⊎ Refused s stream id now client os msg)
  unfolding handle_login settle_login login_req_of bytes_eq
  settle_login-handle_login s stream id now client os =
      elim (Option-cases (check_login s.config (login_req_of client os))) [
        | inl e ↦ (
          login_response (record { client_id = id; result = codes "ok" }),
          rw (e, handle_login) (unfold register_manager send_on in refl),
          inl (
            ((check_login_iff s.config (login_req_of client os)).0 e).0,
            ((check_login_iff s.config (login_req_of client os)).0 e).1,
            refl,
            rw (e, handle_login)
                (find_manager-world float _ _ id
                  ∙ find_manager-register float s stream id now (login_req_of client os)),
          ),
        )
        | inr (why, e) ↦ (
          login_response (record { client_id = []; result = codes "login fail:" ++ why }),
          rw (e, handle_login) (unfold send_on close_conn in refl),
          inr (why, e, refl, rw (e, handle_login) (close_conn_closes stream _)),
        )
      ]
