-- ===== src/Client/Work.antt =====
-- client/client.go and client/agent.go: `NewPipeConn` and `awaitWork`, one connection that the server
-- hands over.
use ae_ro_go.Base.{
  ◌≡◌, refl, Bool, true, Bytes, Option, none, some, if◌then◌else◌, Option-cases, inl, inr, arith,
}
use ae_ro_go.Base.Int.{ℤ, ◌+ℤ◌, wrap64}
use ae_ro_go.Base.Dict.{Dict, lookup}
use ae_ro_go.Message.{Message, ConnRequest, pipe_request, conn_request, ok, err, Result-cases}
use ae_ro_go.Message.Frame.{Writer, Reader}
use ae_ro_go.Message.Codec.{Json, get, send}
use ae_ro_go.Client.{Client, Proxy}

-- A stream of the session to the server.
pub data Pipe : Type 0 where
  not_made : Pipe  -- no stream could be opened
  shut : Pipe  -- the pipe request failed: the stream was closed
  made : Writer → Pipe

-- `NewPipeConn`, on the stream that the session opened, if it did.
unfoldable pub new_pipe_conn : Json → Client → Option Writer → Pipe
new_pipe_conn json client none = not_made
new_pipe_conn json client (some stream) =
    elim (send json (pipe_request (record { client_id = client.client_id })) stream) [
      | err e ↦ shut
      | ok w ↦ made w
    ]

-- How `awaitWork` ends: every pipe that was made is closed, with `served` after the bytes of the
-- connection were carried from and to the target of that proxy.
pub data Work : Type 0 where
  no_work : Work
  dropped : Work
  served : ConnRequest → Proxy → Work

-- The request of the server: `dial` tells whether a target takes a connection.
unfoldable pub find_target : Dict Proxy → (Bytes → Bool) → Message → Work
find_target proxies dial (conn_request req) = elim (lookup req.proxy_name proxies) [
  | none ↦ dropped
  | some proxy ↦
      if proxy.started
      then (if dial proxy.local_addr then served req proxy else dropped)
      else dropped
]
find_target proxies dial _ = dropped

unfoldable pub await_work :
    Json → Client → Dict Proxy → (Bytes → Bool) → Option Writer → Reader → Work
unfolding find_target
await_work json client proxies dial stream reader = elim (new_pipe_conn json client stream) [
  | not_made ↦ no_work
  | shut ↦ no_work
  | made w ↦ elim (get json reader) [
    | err e ↦ dropped
    | ok (msg, rest) ↦ find_target proxies dial msg
  ]
]

-- The counters after the work, which carried `wn` and `rn` bytes.
unfoldable pub count_bytes : Proxy → ℤ → ℤ → Proxy
count_bytes proxy wn rn = record proxy {
  wn = wrap64 (proxy.wn +ℤ wn);
  rn = wrap64 (proxy.rn +ℤ rn);
}

pub find_target-served :
    (proxies : Dict Proxy) (dial : Bytes → Bool) (msg : Message) (req : ConnRequest) (proxy : Proxy)
    → find_target proxies dial msg ≡ served req proxy
    → (msg ≡ conn_request req)
      × (lookup req.proxy_name proxies ≡ some proxy)
      × (proxy.started ≡ true)
      × (dial proxy.local_addr ≡ true)
unfolding find_target
find_target-served proxies dial (conn_request r) req proxy h =
    elim (Option-cases (lookup r.proxy_name proxies)) [
      | inl e ↦ cc (rw (e, find_target) at h)
      | inr (p, e) ↦ ground arith
    ]
find_target-served proxies dial _ req proxy h = cc

-- Bytes are carried only for a connection that the server asked for on this pipe, and only to the
-- target of the proxy that it named, which is a known proxy that the server has registered.
pub await_work-served :
    (json : Json) (client : Client) (proxies : Dict Proxy) (dial : Bytes → Bool)
    (stream : Option Writer) (reader : Reader) (req : ConnRequest) (proxy : Proxy)
    → await_work json client proxies dial stream reader ≡ served req proxy
    → (rest : Reader) × (get json reader ≡ ok (conn_request req, rest))
      × (lookup req.proxy_name proxies ≡ some proxy)
      × (proxy.started ≡ true)
      × (dial proxy.local_addr ≡ true)
unfolding await_work
await_work-served json client proxies dial stream reader req proxy h =
    go (new_pipe_conn json client stream) refl
  where
    go :
        (p : Pipe)
        → new_pipe_conn json client stream ≡ p
        → (rest : Reader) × (get json reader ≡ ok (conn_request req, rest))
          × (lookup req.proxy_name proxies ≡ some proxy)
          × (proxy.started ≡ true)
          × (dial proxy.local_addr ≡ true)
    go not_made e = cc (rw (e, await_work) at h)
    go shut e = cc (rw (e, await_work) at h)
    go (made w) e = elim (Result-cases (get json reader)) [
      | inl ((msg, rest), g) ↦
          let (m, l, st, d) =
            find_target-served proxies dial msg req proxy (rw (e, await_work, g) at h) in
          (rest, rw (← m) g, l, st, d)
      | inr (x, g) ↦ cc (rw (e, await_work, g) at h)
    ]
