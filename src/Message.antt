-- ===== src/Message.antt =====
-- util/message/message.go: the messages between server and client, and their kinds on the wire.
pub mod Frame
pub mod Codec
pub mod FrameLaws
pub mod CodecLaws
pub mod Delivery
pub mod Sample
pub mod Plain
mod Runs
use ae_ro_go.Base.{
  ℕ, ◌≡◌, refl, ◌⊎◌, inl, inr, Bool, Bytes, Option, none, some, ◌==◌, if◌then◌else◌,
}
use ae_ro_go.Base.Int.{ℤ}

pub record LoginRequest : Type 0 where
  pub version : ℕ  -- uint8
  pub auth_code : Bytes
  pub pool_size : ℤ
  pub host_name : Bytes
  pub os : Bytes
  pub tag : Bytes

pub record LoginResponse : Type 0 where
  pub client_id : Bytes
  pub result : Bytes

pub record ProxyRequest : Type 0 where
  pub name : Bytes
  pub typ : Bytes
  pub port : Bytes
  pub target : Bytes
  pub enable : Bool

pub record ProxyResponse : Type 0 where
  pub name : Bytes
  pub port : Bytes
  pub enable : Bool
  pub result : Bytes

pub record HeartbeatRequest : Type 0 where
  pub timestamp : ℤ

pub record HeartbeatResponse : Type 0 where
  pub time_send : ℤ
  pub time_recv : ℤ

pub record PipeRequest : Type 0 where
  pub client_id : Bytes

pub record ConnRequest : Type 0 where
  pub proxy_name : Bytes
  pub src_ip : Bytes
  pub src_port : Bytes
  pub dst_ip : Bytes
  pub dst_port : Bytes

-- The dynamic type of a `Message`, which is an empty interface: a pointer to one of the structs
-- above, or some other value.
pub data Message : Type 0 where
  login_request : LoginRequest → Message
  login_response : LoginResponse → Message
  proxy_request : ProxyRequest → Message
  proxy_response : ProxyResponse → Message
  heartbeat_request : HeartbeatRequest → Message
  heartbeat_response : HeartbeatResponse → Message
  pipe_request : PipeRequest → Message
  conn_request : ConnRequest → Message
  other : Bytes → Message

-- The struct types that the two type maps hold.
pub data Kind : Type 0 where
  login_req login_resp proxy_req proxy_resp : Kind
  heartbeat_req heartbeat_resp pipe_req conn_req : Kind

pub data Error : Type 0 where
  eof unexpected_eof read_failed write_failed : Error
  invalid_msg unknown_msg unknown_type json_error : Error

pub data Result {ℓ} (A : Type ℓ) : Type ℓ where
  ok : A → Result A
  err : Error → Result A

infixl 5 ◌>>=◌
abbrev pub ◌>>=◌ {ℓ κ} : {A : Type ℓ} {B : Type κ} → Result A → (A → Result B) → Result B
ok a >>= f = f a
err e >>= f = err e

abbrev pub request_flag : ℕ
request_flag = b'<'

abbrev pub response_flag : ℕ
response_flag = b'>'

abbrev pub type_login : ℕ
type_login = b'l'

abbrev pub type_proxy : ℕ
type_proxy = b'p'

abbrev pub type_heartbeat : ℕ
type_heartbeat = b'h'

abbrev pub type_pipe : ℕ
type_pipe = b'q'

abbrev pub type_conn : ℕ
type_conn = b'w'

-- `TypeReqMap[typ]`
unfoldable pub type_req_map : ℕ → Option Kind
type_req_map typ =
    if typ == type_heartbeat
    then some heartbeat_req
    else if typ == type_login
    then some login_req
    else if typ == type_proxy
    then some proxy_req
    else if typ == type_pipe
    then some pipe_req
    else if typ == type_conn
    then some conn_req
    else none

-- `TypeRespMap[typ]`
unfoldable pub type_resp_map : ℕ → Option Kind
type_resp_map typ =
    if typ == type_heartbeat
    then some heartbeat_resp
    else if typ == type_login
    then some login_resp
    else if typ == type_proxy
    then some proxy_resp
    else none

-- `getMsgInfo`: the flag and the type code, by the dynamic type.
unfoldable pub get_msg_info : Message → Result (ℕ × ℕ)
get_msg_info (login_request r) = ok (request_flag, type_login)
get_msg_info (login_response r) = ok (response_flag, type_login)
get_msg_info (heartbeat_request r) = ok (request_flag, type_heartbeat)
get_msg_info (heartbeat_response r) = ok (response_flag, type_heartbeat)
get_msg_info (proxy_request r) = ok (request_flag, type_proxy)
get_msg_info (proxy_response r) = ok (response_flag, type_proxy)
get_msg_info (pipe_request r) = ok (request_flag, type_pipe)
get_msg_info (conn_request r) = ok (request_flag, type_conn)
get_msg_info (other v) = err unknown_msg

-- To split on a computed result and keep the equation.
pub Result-cases {ℓ} :
    {A : Type ℓ} (r : Result A) → ((a : A) × (r ≡ ok a)) ⊎ ((e : Error) × (r ≡ err e))
Result-cases (ok a) = inl (a, refl)
Result-cases (err e) = inr (e, refl)
