-- ===== src/Tunnel/Runs/Proxied.antt =====
-- Runs of a proxy's registration and of its connections.
use ae_ro_go.Base.{◌≡◌, ◌↔◌, ◌⊎◌, refl, Bool, true, false, [], ◌∷◌, ◌++◌, Bytes, codes, some, arith}
use ae_ro_go.Base.Chan.{done}
use ae_ro_go.Base.Int.{pos}
use ae_ro_go.Base.Dict.{Dict, lookup}
use ae_ro_go.Util.Whole.{whole}
use ae_ro_go.Message.{
  Message, proxy_request, proxy_response, pipe_request, conn_request, ConnRequest, ok, get_msg_info,
}
use ae_ro_go.Message.Frame.{Reader, encode, put_int32}
use ae_ro_go.Message.Codec.{get}
use ae_ro_go.Message.Plain.{plain}
use ae_ro_go.Message.Delivery.{Delivered}
use ae_ro_go.Netstat.Ports.Range.{ranged}
use ae_ro_go.Server.Address.{split_host_port, last_index_byte, index_byte}
use ae_ro_go.Server.Proxy.{listening, new_proxy, actual_port}
use ae_ro_go.Base.Decimal.{itoa, atoi}
use ae_ro_go.Netstat.Ports.{find_available_port, admitted, set_port_range}
use ae_ro_go.Server.Manager.{new_manager}
use ae_ro_go.Server.Manager.Proxies.{Env, register_proxy, requested_port}
use ae_ro_go.Server.Manager.Invariant.{new_manager-Inv}
use ae_ro_go.Server.Manager.Running.{Site}
use ae_ro_go.Server.Manager.Running
use ae_ro_go.Server.Registry.{Server}
use ae_ro_go.Server.Registry.Streams.{handle_stream}
use ae_ro_go.Server.Forward.{work_request}
use ae_ro_go.Client.{Proxy}
use ae_ro_go.Client.Login.{login_req_of}
use ae_ro_go.Client.Agent
use ae_ro_go.Client.Agent.{Agent, Clock, new_agent}
use ae_ro_go.Client.Work.{await_work, made, new_pipe_conn, served}
use ae_ro_go.Tunnel.Register.{request_of, Up, Down, register_proxy-handle_message}
use ae_ro_go.Tunnel.Work.{pipe_of, work_request-await_work}
use ae_ro_go.Tunnel.Pool.{Pooled, new_pipe_conn-handle_stream}
use ae_ro_go.Tunnel.Runs.{ascii, empty, wrote, arrives, at_once, web, client, server}

abbrev noon : Clock
noon = record { nanos = pos 5000; micros = pos 5 }

abbrev agent : Agent
agent = new_agent client noon

abbrev site : Site whole
site = record {
  mgr = new_manager whole (codes "abcdefgh") 7 (pos 5) (login_req_of client (codes "linux"));
  range = ranged (pos 8000) (pos 8004) true (λ k i. i) 0;
  world = server.world;
}

abbrev env : Env
env = record {
  probe = λ p. true;
  answer = λ addr. listening (codes "[::]" ++ addr);
  now = pos 2000;
}

abbrev wants : Message
wants = proxy_request (request_of web)

-- The port 8003 is free, and the server takes it.
abbrev gives : Message
gives =
    proxy_response
      (record { name = codes "web"; port = codes "8003"; enable = false; result = codes "ok" })

wants-Delivered : Delivered plain wants empty (wrote wants b'<' b'p') (arrives wants b'<' b'p') []
unfolding get_msg_info encode put_int32
wants-Delivered =
    at_once wants b'<' b'p'
      (
        ascii (codes "web") refl,
        ascii (codes "tcp") refl,
        ascii (codes "8003") refl,
        ascii (codes "127.0.0.1:80") refl,
      )
      refl (omega arith)

gives-Delivered : Delivered plain gives empty (wrote gives b'>' b'p') (arrives gives b'>' b'p') []
unfolding get_msg_info encode put_int32
gives-Delivered =
    at_once gives b'>' b'p'
      (ascii (codes "web") refl, ascii (codes "8003") refl, ascii (codes "ok") refl) refl
      (omega arith)

abbrev after : Site whole
after = (Running.handle_message whole env site wants).1

server_gives : Running.handle_message whole env site wants ≡ (some gives, after)
unfolding Running.handle_message register_proxy new_proxy actual_port split_host_port
    last_index_byte index_byte itoa atoi find_available_port admitted set_port_range requested_port
server_gives = refl

register_proxy-handle_message_example :
    (asked a' : Agent) × (left left' : Reader) × (Agent.register_proxy plain web agent empty
      ≡ ok (asked, wrote wants b'<' b'p'))
    × (get plain (arrives wants b'<' b'p') ≡ ok (wants, left))
    × (get plain (arrives gives b'>' b'p') ≡ ok (gives, left'))
    × (Agent.handle_message noon asked gives ≡ done (true, a'))
    × (Up whole site after agent a' web ⊎ Down whole site after agent a' web)
register_proxy-handle_message_example =
    register_proxy-handle_message whole plain env site after web agent noon empty
      (wrote wants b'<' b'p') empty (wrote gives b'>' b'p') (arrives wants b'<' b'p')
      (arrives gives b'>' b'p') [] [] gives wants-Delivered server_gives gives-Delivered

abbrev announces : Message
announces = pipe_request (pipe_of client)

announces-Delivered :
    Delivered plain announces empty (wrote announces b'<' b'q') (arrives announces b'<' b'q') []
unfolding get_msg_info encode put_int32
announces-Delivered = at_once announces b'<' b'q' (ascii (codes "abcdefgh") refl) refl (omega arith)

abbrev known_server : Server whole
known_server = record server { managers = (codes "abcdefgh", 0) ∷ []; heap = site.mgr ∷ [] }

new_pipe_conn-handle_stream_example :
    (new_pipe_conn plain client (some empty) ≡ made (wrote announces b'<' b'q'))
    × Pooled whole known_server
        (handle_stream whole plain known_server 9 [] (pos 6) (arrives announces b'<' b'q'))
        (codes "abcdefgh")
        9
new_pipe_conn-handle_stream_example =
    new_pipe_conn-handle_stream whole plain known_server 9 [] (pos 6) client empty
      (wrote announces b'<' b'q') (arrives announces b'<' b'q') []
      (new_manager-Inv whole (codes "abcdefgh") 7 (pos 5) (login_req_of client (codes "linux")), tt)
      announces-Delivered

abbrev hands_over : Message
hands_over = work_request (codes "web") (codes "10.0.0.7:4000") (codes "10.0.0.1:8003")

hands_over-Delivered :
    Delivered plain hands_over empty (wrote hands_over b'<' b'w') (arrives hands_over b'<' b'w') []
unfolding get_msg_info encode put_int32 work_request split_host_port last_index_byte index_byte
hands_over-Delivered =
    at_once hands_over b'<' b'w'
      (
        ascii (codes "web") refl,
        ascii (codes "10.0.0.7") refl,
        ascii (codes "4000") refl,
        ascii (codes "10.0.0.1") refl,
        ascii (codes "8003") refl,
      )
      refl (omega arith)

abbrev up : Dict Proxy
up = (codes "web", record web { started = true }) ∷ []

all_dialled : Bytes → Bool
all_dialled addr = true

work_request-await_work_example :
    (req : ConnRequest) × (hands_over ≡ conn_request req)
    × ((proxy : Proxy)
        → (await_work plain client up all_dialled (some empty) (arrives hands_over b'<' b'w')
            ≡ served req proxy)
          ↔ ((lookup (codes "web") up ≡ some proxy)
              × (proxy.started ≡ true)
              × (all_dialled proxy.local_addr ≡ true)))
work_request-await_work_example =
    work_request-await_work plain client up all_dialled (codes "web") (codes "10.0.0.7:4000")
      (codes "10.0.0.1:8003") empty (wrote announces b'<' b'q') empty (wrote hands_over b'<' b'w')
      (arrives hands_over b'<' b'w') [] announces-Delivered.sent hands_over-Delivered
