-- ===== src/Message/Codec.antt =====
-- util/message/message.go: `Get` and `Send`, over the JSON encoding of the message structs.
use ae_ro_go.Base.{ℕ, ◌<◌, ◌≡◌, ◌==◌, Bytes, Option, none, some, if◌then◌else◌, All}
use ae_ro_go.Message.{
  Message, Kind, login_req, login_resp, proxy_req, proxy_resp, heartbeat_req, heartbeat_resp,
  pipe_req, conn_req, login_request, login_response, proxy_request, proxy_response,
  heartbeat_request, heartbeat_response, pipe_request, conn_request, other, Error, unknown_type,
  json_error, Result, ok, err, ◌>>=◌, request_flag, response_flag, type_req_map, type_resp_map,
  get_msg_info,
}
use ae_ro_go.Message.Frame.{Reader, Writer, write, read}

-- The struct type of a message; `none` for a value of no message type.
unfoldable pub kind_of : Message → Option Kind
kind_of (login_request r) = some login_req
kind_of (login_response r) = some login_resp
kind_of (proxy_request r) = some proxy_req
kind_of (proxy_response r) = some proxy_resp
kind_of (heartbeat_request r) = some heartbeat_req
kind_of (heartbeat_response r) = some heartbeat_resp
kind_of (pipe_request r) = some pipe_req
kind_of (conn_request r) = some conn_req
kind_of (other v) = none

abbrev IsAscii : Bytes → Type 0
IsAscii = All (λ b. b < 128)

-- Every string field holds ASCII only: JSON would replace bytes that are not valid UTF-8.
abbrev pub IsText : Message → Type 0
IsText (login_request r) = IsAscii r.auth_code × IsAscii r.host_name × IsAscii r.os × IsAscii r.tag
IsText (login_response r) = IsAscii r.client_id × IsAscii r.result
IsText (proxy_request r) = IsAscii r.name × IsAscii r.typ × IsAscii r.port × IsAscii r.target
IsText (proxy_response r) = IsAscii r.name × IsAscii r.port × IsAscii r.result
IsText (heartbeat_request r) = Unit
IsText (heartbeat_response r) = Unit
IsText (pipe_request r) = IsAscii r.client_id
IsText (conn_request r) =
    IsAscii r.proxy_name
    × IsAscii r.src_ip
    × IsAscii r.src_port
    × IsAscii r.dst_ip
    × IsAscii r.dst_port
IsText (other v) = Unit

-- `json.Marshal` and `json.Unmarshal` at the message structs.
pub record Json : Type 0 where
  pub marshal : Message → Option Bytes
  pub unmarshal : Kind → Bytes → Option Message
  -- A struct of text fields is read back from what was written.
  pub unmarshal-marshal :
      (m : Message) (k : Kind) (b : Bytes)
      → IsText m
      → kind_of m ≡ some k
      → marshal m ≡ some b
      → unmarshal k b ≡ some m
  -- `Unmarshal` fills a value of the type that it is given.
  pub unmarshal_kind :
      (k : Kind) (b : Bytes) (m : Message) → unmarshal k b ≡ some m → kind_of m ≡ some k

abbrev or_fail {ℓ} : {A : Type ℓ} → Option A → Error → Result A
or_fail none e = err e
or_fail (some a) e = ok a

-- `mtype, ok` of `Get`.
unfoldable pub lookup_type : ℕ → ℕ → Option Kind
lookup_type flag typ =
    if flag == request_flag
    then type_req_map typ
    else if flag == response_flag
    then type_resp_map typ
    else none

module _ (json : Json) where
  unfoldable pub get : Reader → Result (Message × Reader)
  get r = do
    (f, r') ← read r
    kind ← or_fail (lookup_type f.flag f.typ) unknown_type
    m ← or_fail (json.unmarshal kind f.payload) json_error
    ok (m, r')

  unfoldable pub send : Message → Writer → Result Writer
  send m w = do
    (flag, typ) ← get_msg_info m
    body ← or_fail (json.marshal m) json_error
    write (record { flag = flag; typ = typ; payload = body }) w
