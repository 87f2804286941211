-- ===== src/Message/Sample.antt =====
-- A JSON codec of three messages, which obeys the laws of the interface.
use ae_ro_go.Base.{◌≡◌, [], ◌∷◌, Bytes, bytes_eq, codes, Option, none, some, if◌then◌else◌, arith}
use ae_ro_go.Base.Int.{pos}
use ae_ro_go.Message.{
  Message, LoginRequest, ConnRequest, login_request, pipe_request, Kind, login_req, pipe_req,
  conn_req, conn_request,
}
use ae_ro_go.Message.Codec.{Json, IsText, kind_of}

abbrev pub login_text : Bytes
login_text = codes "{\"ver\":1,\"xcode\":\"s\",\"tag\":\"t\"}"

abbrev pub login : LoginRequest
login = record {
  version = 1;
  auth_code = codes "s";
  pool_size = pos 0;
  host_name = [];
  os = [];
  tag = codes "t";
}

abbrev pub conn_text : Bytes
conn_text = codes "{\"name\":\"web\"}"

abbrev pub conn : ConnRequest
conn = record { proxy_name = codes "web"; src_ip = []; src_port = []; dst_ip = []; dst_port = [] }

-- Of a pipe request that names no client.
abbrev pub pipe_text : Bytes → Option Bytes
pipe_text [] = some (codes "{}")
pipe_text (c ∷ s) = none

abbrev pub to_text : Message → Option Bytes
to_text (pipe_request r) = pipe_text r.client_id
to_text _ = none

abbrev pub of_text : Kind → Bytes → Option Message
of_text login_req b = if bytes_eq b login_text then some (login_request login) else none
of_text pipe_req b =
    if bytes_eq b (codes "{}") then some (pipe_request (record { client_id = [] })) else none
of_text conn_req b = if bytes_eq b conn_text then some (conn_request conn) else none
of_text _ b = none

pub of_text-to_text :
    (m : Message) (k : Kind) (b : Bytes)
    → IsText m
    → kind_of m ≡ some k
    → to_text m ≡ some b
    → of_text k b ≡ some m
unfolding kind_of bytes_eq
of_text-to_text (pipe_request r) k b t h e = ground arith
of_text-to_text m k b t h e = cc

pub of_text_kind : (k : Kind) (b : Bytes) (m : Message) → of_text k b ≡ some m → kind_of m ≡ some k
unfolding kind_of
of_text_kind login_req b m h = ground arith
of_text_kind pipe_req b m h = ground arith
of_text_kind conn_req b m h = ground arith
of_text_kind _ b m h = cc

abbrev pub sample : Json
sample = record {
  marshal = to_text;
  unmarshal = of_text;
  unmarshal-marshal = of_text-to_text;
  unmarshal_kind = of_text_kind;
}
