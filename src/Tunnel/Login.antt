-- ===== src/Tunnel/Login.antt =====
-- client/client.go and server/server.go: `Login` against `HandleStream`, over the wire.
use ae_ro_go.Base.{
  ℕ, ◌≡◌, refl, sym, ap, ◌∙◌, ◌⊎◌, inl, inr, Bool, true, false, List, [], ◌∷◌, ◌++◌, Bytes, codes,
  Option, none, some, length, All,
}
use ae_ro_go.Base.Int.{ℤ}
use ae_ro_go.Util.Ema.{Float}
use ae_ro_go.Util.Legal.{IsWordByte}
use ae_ro_go.Message.{Message, login_request}
use ae_ro_go.Message.Frame.{Reader, Writer}
use ae_ro_go.Message.Codec.{Json}
use ae_ro_go.Message.Delivery.{Delivered, get-Delivered}
use ae_ro_go.Server.World.{IsClosed}
use ae_ro_go.Server.Manager.{new_manager}
use ae_ro_go.Server.Registry.{Server, check_login, find_manager}
use ae_ro_go.Server.Registry.Streams.{handle_login, handle_first, handle_stream}
use ae_ro_go.Client.{Client}
use ae_ro_go.Client.Login.{LoginError, refused, login_req_of, settle_login, login, exchange}
use ae_ro_go.Client.Handshake.{settle_login-handle_login}

last_sent : Message → List (ℕ × Message) → Message
last_sent m [] = m
last_sent m ((c, n) ∷ l) = n

module _ (float : Float) where
  -- The client has the id and keeps the connection; the server finds the client's manager under it.
  abbrev pub In :
      Server float
      → Server float
      → ℕ
      → Bytes
      → ℤ
      → Client
      → Bytes
      → Option LoginError × Client × Bool
      → Type 0
  In s s' stream id now client os result =
      (s.config.auth_code ≡ client.config.auth_code)
      × All IsWordByte client.config.tag
      × (result ≡ (none, record client { client_id = id }, false))
      × (find_manager float s' id
          ≡ some (length s.heap, new_manager float id stream now (login_req_of client os)))

  -- The client reports the server's reason, and both have closed the connection.
  abbrev pub Out :
      Server float → Server float → ℕ → Client → Bytes → Option LoginError × Client × Bool → Type 0
  Out s s' stream client os result =
      (why : Bytes) × (check_login s.config (login_req_of client os) ≡ some why)
      × (result ≡ (some (refused (codes "login fail:" ++ why)), client, true))
      × IsClosed stream s'.world

  pub handle_stream-request :
      (json : Json) (s : Server float) (stream : ℕ) (id : Bytes) (now : ℤ) (client : Client)
      (os : Bytes) {out out' : Writer} (r : Reader) {rest : Bytes}
      → Delivered json (login_request (login_req_of client os)) out out' r rest
      → handle_stream float json s stream id now r
        ≡ handle_login float s stream id now (login_req_of client os)
  unfolding handle_first handle_stream
  handle_stream-request json s stream id now client os r d =
      let (r', g, left) = get-Delivered d in rw (g, handle_stream) refl

  login-answer :
      (json : Json) (client : Client) (os : Bytes) {out out' back back' : Writer} {r ra : Reader}
      {rest more : Bytes} {msg : Message}
      → Delivered json (login_request (login_req_of client os)) out out' r rest
      → Delivered json msg back back' ra more
      → login json os out ra client ≡ (
          let (e, client') = settle_login msg client in
          (e, client', elim e [ none ↦ false | some why ↦ true ]))
  unfolding login exchange
  login-answer json client os dr da =
      let (r', g, left) = get-Delivered da in rw (dr.sent, exchange, g) refl

  -- The client's request is delivered to a new stream of the server, and the message that the server
  -- then sends on that stream is delivered to the client. Then `Login` and `HandleStream` agree: the
  -- code and the tag are right, the client has the id and keeps the connection, and the server finds
  -- the client's manager under the id; or the client has the server's reason, and both have closed
  -- the connection.
  pub login-handle_stream :
      (json : Json) (s : Server float) (stream : ℕ) (id : Bytes) (now : ℤ) (client : Client)
      (os : Bytes) (out out' back back' : Writer) (request answer : Reader) (rest more : Bytes)
      (msg : Message)
      → Delivered json (login_request (login_req_of client os)) out out' request rest
      → (handle_stream float json s stream id now request).world.sent ≡ (stream, msg) ∷ s.world.sent
      → Delivered json msg back back' answer more
      → In s
          (handle_stream float json s stream id now request)
          stream
          id
          now
          client
          os
          (login json os out answer client)
        ⊎ Out s
            (handle_stream float json s stream id now request)
            stream
            client
            os
            (login json os out answer client)
  unfolding last_sent
  login-handle_stream json s stream id now client os out out' back back' request answer rest more
        msg dr sent da =
      let (msg', sent', end) = settle_login-handle_login float s stream id now client os in
      let req = handle_stream-request json s stream id now client os request dr in
      let same : msg' ≡ msg =
        ap (last_sent msg) (sym sent' ∙ ap (λ s'. s'.world.sent) (sym req) ∙ sent) in
      elim end [
        | inl (code, tag, ended, found) ↦
            inl
              (code, tag, login-answer json client os dr da ∙ rw (← same, ended) refl, rw req found)
        | inr (why, bad, ended, shut) ↦
            inr (why, bad, login-answer json client os dr da ∙ rw (← same, ended) refl, rw req shut)
      ]
