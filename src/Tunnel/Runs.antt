-- ===== src/Tunnel/Runs.antt =====
-- Runs of both sides together at concrete inputs, over an encoding that obeys the interface's laws.
mod Proxied
use ae_ro_go.Base.{
  ℕ, ◌<◌, ◌^◌, ◌≡◌, ◌↔◌, ◌⊎◌, refl, ap, ◌∙◌, Bool, true, false, ◌&&◌, List, [], ◌∷◌, ◌++◌, Bytes,
  bytes_eq, codes, none, some, All, length, ltb, append-nil, arith,
}
use ae_ro_go.Base.Chan.{done}
use ae_ro_go.Base.Int.{pos}
use ae_ro_go.Base.Dict.{Dict, lookup, insert}
use ae_ro_go.Util.Whole.{whole}
use ae_ro_go.Message.{
  Message, LoginResponse, login_request, login_response, proxy_request, proxy_response,
  pipe_request, conn_request, ConnRequest, eof, ok, get_msg_info,
}
use ae_ro_go.Message.Frame.{Reader, Writer, Frame, encode, put_int32, write}
use ae_ro_go.Message.Codec.{IsText, get, send}
use ae_ro_go.Message.Plain.{plain, pack, fields_of}
use ae_ro_go.Message.Delivery.{Delivered}
use ae_ro_go.Netstat.Ports.Range.{ranged}
use ae_ro_go.Util.Legal.{IsWordByte}
use ae_ro_go.Server.World.{send_on}
use ae_ro_go.Server.Address.{split_host_port, last_index_byte, index_byte}
use ae_ro_go.Server.Proxy.{listening, new_proxy, actual_port}
use ae_ro_go.Base.Decimal.{itoa, atoi}
use ae_ro_go.Netstat.Ports.{find_available_port, admitted, set_port_range}
use ae_ro_go.Server.Registry.StreamLaws.{check_login_iff}
use ae_ro_go.Server.Manager.{new_manager}
use ae_ro_go.Server.Manager.Proxies.{Env, register_proxy, requested_port}
use ae_ro_go.Server.Manager.Invariant.{new_manager-Inv}
use ae_ro_go.Server.Manager.Running.{Site}
use ae_ro_go.Server.Manager.Running
use ae_ro_go.Server.Registry.{ServerConfig, Server, check_login, register_manager}
use ae_ro_go.Server.Registry.Streams.{handle_login, handle_stream}
use ae_ro_go.Server.Forward.{work_request}
use ae_ro_go.Client.{Proxy, ClientConfig, Client}
use ae_ro_go.Client.Login.{login_req_of, login}
use ae_ro_go.Client.Agent
use ae_ro_go.Client.Agent.{Agent, Clock, new_agent}
use ae_ro_go.Client.Work.{await_work, made, new_pipe_conn, served}
use ae_ro_go.Tunnel.Login.{In, Out, handle_stream-request, login-handle_stream}
use ae_ro_go.Tunnel.Register.{request_of, Up, Down, register_proxy-handle_message}
use ae_ro_go.Tunnel.Work.{pipe_of, work_request-await_work}
use ae_ro_go.Tunnel.Pool.{Pooled, new_pipe_conn-handle_stream}

abbrev all_ascii : Bytes → Bool
all_ascii [] = true
all_ascii (b ∷ s) = ltb b 128 && all_ascii s

ascii : (s : Bytes) → all_ascii s ≡ true → All (λ b. b < 128) s
ascii [] h = tt
ascii (b ∷ s) h = (ground arith, ascii s (ground arith))

abbrev empty : Writer
empty = record { out = []; broken = false }

abbrev frame : Message → ℕ → ℕ → Frame
frame m flag typ = record { flag = flag; typ = typ; payload = pack (fields_of m) }

abbrev wrote : Message → ℕ → ℕ → Writer
wrote m flag typ = record { out = encode (frame m flag typ); broken = false }

-- All in one chunk.
abbrev arrives : Message → ℕ → ℕ → Reader
arrives m flag typ = record { chunks = encode (frame m flag typ) ∷ []; last = eof }

at_once :
    (m : Message) (flag typ : ℕ)
    → IsText m
    → get_msg_info m ≡ ok (flag, typ)
    → length (encode (frame m flag typ)) < 2 ^ 31
    → Delivered plain m empty (wrote m flag typ) (arrives m flag typ) []
unfolding send write encode
at_once m flag typ text info small = record {
  text = text;
  sent = rw info refl;
  bytes = encode (frame m flag typ);
  written = refl;
  small = small;
  flag_byte = flag;
  typ_byte = typ;
  first = put_int32 (length (pack (fields_of m))) ++ pack (fields_of m);
  others = [];
  chunked = refl;
  arrived = rw append-nil refl;
}

abbrev web : Proxy
web = record {
  name = codes "web";
  typ = codes "tcp";
  local_addr = codes "127.0.0.1:80";
  remote_port = codes "8003";
  wn = pos 0;
  rn = pos 0;
  started = false;
}

abbrev client : Client
client = record {
  config = record {
    name = codes "laptop";
    tag = codes "t";
    server_addr = codes "127.0.0.1:8080";
    auth_code = codes "s";
    pool_size = pos 2;
    log_file = [];
    proxies = (codes "web", web) ∷ [];
    heartbeat_interval = pos 60;
    debug = false;
  };
  client_id = codes "abcdefgh";
  server_addr = codes "127.0.0.1:8080";
}

abbrev config : ServerConfig
config = record {
  ip = [];
  port = codes "8080";
  auth_code = codes "s";
  log_file = [];
  debug = false;
  start_port = pos 8000;
  end_port = pos 8004;
  force_range = true;
  api = [];
  mux_addr = [];
  domain = [];
}

abbrev server : Server whole
server = record {
  config = config;
  managers = [];
  heap = [];
  world = record { open_listeners = []; next_listener = 0; closed_conns = []; sent = [] };
}

abbrev asks : Message
asks = login_request (login_req_of client (codes "linux"))

abbrev accepts : Message
accepts = login_response (record { client_id = codes "abcdefgh"; result = codes "ok" })

asks-Delivered : Delivered plain asks empty (wrote asks b'<' b'l') (arrives asks b'<' b'l') []
unfolding get_msg_info encode put_int32 login_req_of
asks-Delivered =
    at_once asks b'<' b'l'
      (
        ascii (codes "s") refl,
        ascii (codes "laptop") refl,
        ascii (codes "linux") refl,
        ascii (codes "t") refl,
      )
      refl (omega arith)

accepts-Delivered :
    Delivered plain accepts empty (wrote accepts b'>' b'l') (arrives accepts b'>' b'l') []
unfolding get_msg_info encode put_int32
accepts-Delivered =
    at_once accepts b'>' b'l' (ascii (codes "abcdefgh") refl, ascii (codes "ok") refl) refl
      (omega arith)

server_accepts :
    (handle_stream whole plain server 7
      (codes "abcdefgh")
      (pos 5)
      (arrives asks b'<' b'l')).world.sent
    ≡ (7, accepts) ∷ []
unfolding handle_login send_on register_manager login_req_of
server_accepts =
    let passes : check_login config (login_req_of client (codes "linux")) ≡ none =
      (check_login_iff config (login_req_of client (codes "linux"))).1 (refl, (word_byte, tt)) in
    ap (λ s. s.world.sent)
      (handle_stream-request whole plain server 7 (codes "abcdefgh") (pos 5) client (codes "linux")
        (arrives asks b'<' b'l') asks-Delivered)
    ∙ rw (handle_login, passes) refl
  where
    word_byte : IsWordByte b't'
    word_byte = omega arith

login-handle_stream_example :
    let s' =
      handle_stream whole plain server 7 (codes "abcdefgh") (pos 5) (arrives asks b'<' b'l') in
    let result = login plain (codes "linux") empty (arrives accepts b'>' b'l') client in
    In whole server s' 7 (codes "abcdefgh") (pos 5) client (codes "linux") result
    ⊎ Out whole server s' 7 client (codes "linux") result
login-handle_stream_example =
    login-handle_stream whole plain server 7 (codes "abcdefgh") (pos 5) client (codes "linux") empty
      (wrote asks b'<' b'l') empty (wrote accepts b'>' b'l') (arrives asks b'<' b'l')
      (arrives accepts b'>' b'l') [] [] accepts asks-Delivered server_accepts accepts-Delivered
