-- ===== src/Tunnel/Work.antt =====
-- client/agent.go and server/proxy.go: a connection that the server hands over, over the wire.
use ae_ro_go.Base.{◌≡◌, ◌↔◌, refl, sym, ◌∙◌, true, Bool, Bytes, some}
use ae_ro_go.Base.Dict.{Dict, lookup}
use ae_ro_go.Message.{Message, ConnRequest, PipeRequest, pipe_request, conn_request, ok}
use ae_ro_go.Message.Frame.{Reader, Writer}
use ae_ro_go.Message.Codec.{Json, send}
use ae_ro_go.Message.Delivery.{Delivered, get-Delivered}
use ae_ro_go.Server.Forward.{work_request}
use ae_ro_go.Client.{Client, Proxy}
use ae_ro_go.Client.Work.{served, new_pipe_conn, find_target, find_target-served, await_work}

-- What the client announces on a pipe.
abbrev pub pipe_of : Client → PipeRequest
pipe_of client = record { client_id = client.client_id }

find_target_started :
    (proxies : Dict Proxy) (dial : Bytes → Bool) (req : ConnRequest) (proxy : Proxy)
    → lookup req.proxy_name proxies ≡ some proxy
    → proxy.started ≡ true
    → dial proxy.local_addr ≡ true
    → find_target proxies dial (conn_request req) ≡ served req proxy
unfolding find_target
find_target_started proxies dial req proxy known up reached =
    rw (find_target, known, up, reached) refl

await_work-Delivered :
    (json : Json) (client : Client) (proxies : Dict Proxy) (dial : Bytes → Bool)
    (stream stream' : Writer) (m : Message) {out out' : Writer} (reader : Reader) {rest : Bytes}
    → send json (pipe_request (pipe_of client)) stream ≡ ok stream'
    → Delivered json m out out' reader rest
    → await_work json client proxies dial (some stream) reader ≡ find_target proxies dial m
unfolding await_work new_pipe_conn
await_work-Delivered json client proxies dial stream stream' m reader made d =
    let (left, g, behind) = get-Delivered d in rw (await_work, new_pipe_conn, made, g) refl

-- The work request of a connection to a proxy's port is delivered on a pipe that the client could
-- announce. Then the client carries the connection, to and from the target of a proxy, exactly if
-- this is the proxy that it knows under the name, the server has accepted it and its target answers.
pub work_request-await_work :
    (json : Json) (client : Client) (proxies : Dict Proxy) (dial : Bytes → Bool)
    (name remote local : Bytes) (stream stream' out out' : Writer) (reader : Reader) (rest : Bytes)
    → send json (pipe_request (pipe_of client)) stream ≡ ok stream'
    → Delivered json (work_request name remote local) out out' reader rest
    → (req : ConnRequest) × (work_request name remote local ≡ conn_request req)
      × ((proxy : Proxy)
          → (await_work json client proxies dial (some stream) reader ≡ served req proxy) ↔ (
              (lookup name proxies ≡ some proxy)
              × (proxy.started ≡ true)
              × (dial proxy.local_addr ≡ true)))
unfolding work_request
work_request-await_work json client proxies dial name remote local stream stream' out out' reader
      rest made d =
    let e = await_work-Delivered json client proxies dial stream stream' _ reader made d in
    (
      _,
      refl,
      λ proxy. (
        λ h.
            let (same, known, up, reached) =
              find_target-served proxies dial _ _ proxy (sym e ∙ h) in
            (known, up, reached),
        λ h. e ∙ find_target_started proxies dial _ proxy h.0 h.1 h.2,
      ),
    )
