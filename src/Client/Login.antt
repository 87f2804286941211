-- ===== src/Client/Login.antt =====
-- client/client.go: `Login`. On an error, a deferred function closes the connection.
use ae_ro_go.Base.{Bool, true, false, Bytes, bytes_eq, codes, Option, none, some, if◌then◌else◌}
use ae_ro_go.Message.{Message, LoginRequest, login_request, login_response, Error, ok, err}
use ae_ro_go.Message.Frame.{Reader, Writer}
use ae_ro_go.Message.Codec.{Json, get, send}
use ae_ro_go.Client.{Client}

pub data LoginError : Type 0 where
  failed : Error → LoginError
  invalid_response : LoginError
  refused : Bytes → LoginError

-- `os` is the environment's `GOOS`.
unfoldable pub login_req_of : Client → Bytes → LoginRequest
login_req_of client os = record {
  version = 1;
  auth_code = client.config.auth_code;
  pool_size = client.config.pool_size;
  host_name = client.config.name;
  os = os;
  tag = client.config.tag;
}

-- What the client makes of the server's answer.
unfoldable pub settle_login : Message → Client → Option LoginError × Client
settle_login (login_response resp) client =
    if bytes_eq resp.result (codes "ok")
    then (none, record client { client_id = resp.client_id })
    else (some (refused resp.result), client)
settle_login _ client = (some invalid_response, client)

unfoldable pub exchange : Json → Bytes → Writer → Reader → Client → Option LoginError × Client
unfolding settle_login
exchange json os out reader client = elim (send json (login_request (login_req_of client os)) out) [
  | err e ↦ (some (failed e), client)
  | ok out' ↦ elim (get json reader) [
    | err e ↦ (some (failed e), client)
    | ok (msg, rest) ↦ settle_login msg client
  ]
]

-- The error, the client, and whether the connection was closed.
unfoldable pub login : Json → Bytes → Writer → Reader → Client → Option LoginError × Client × Bool
unfolding exchange
login json os out reader client =
    let (e, client') = exchange json os out reader client in
    (e, client', elim e [ none ↦ false | some why ↦ true ])
