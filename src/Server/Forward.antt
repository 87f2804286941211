-- ===== src/Server/Forward.antt =====
-- server/proxy.go: `handle`, the way of one connection from a proxy's port to a pipe of the client.
use ae_ro_go.Base.{ℕ, zero, suc, Bool, true, false, List, [], ◌∷◌, Bytes, none, some, if◌then◌else◌}
use ae_ro_go.Base.Eq.{ℕ_eq}
use ae_ro_go.Message.{Message, conn_request}
use ae_ro_go.Server.Address.{split_host_port}
use ae_ro_go.Server.World.{World, close_conn}

-- What the other goroutines and the network answer, a try at a time: the pipe that `PopPipeConn`
-- gives, or none, and whether the work request can be sent on it.
pub data Try : Type 0 where
  no_pipe : Try
  pipe : (conn : ℕ) → (sent : Bool) → Try

pub data Forwarded : Type 0 where
  gave_up : World → Forwarded
  joined : (conn pipe_conn : ℕ) → World → Forwarded

-- The two parts of an address, empty for an error that `handle` does not look at.
abbrev host_port : Bytes → Bytes × Bytes
host_port addr = elim (split_host_port addr) [ none ↦ ([], []) | some p ↦ p ]

-- The work request of a connection between two addresses.
unfoldable pub work_request : Bytes → Bytes → Bytes → Message
work_request proxy_name remote_addr local_addr =
    let (src_ip, src_port) = host_port remote_addr in
    let (dst_ip, dst_port) = host_port local_addr in
    conn_request (record {
      proxy_name = proxy_name;
      src_ip = src_ip;
      src_port = src_port;
      dst_ip = dst_ip;
      dst_port = dst_port;
    })

-- A copier of `pipe.Join` at its end: it closes the connection that it reads, then the one it writes.
unfoldable pub close_both : ℕ → ℕ → World → World
close_both to from w = close_conn to (close_conn from w)

-- What a `Join` of two connections that has returned leaves of them: both copiers are at their end.
unfoldable pub after_join : ℕ → ℕ → World → World
after_join left right w = close_both right left (close_both left right w)

-- The loop of `handle`, with `n` tries left. A list that ends early stands for tries with no pipe.
unfoldable pub handle_loop : ℕ → ℕ → List Try → World → Forwarded
handle_loop zero conn tries w = gave_up w
handle_loop (suc n) conn [] w = gave_up w
handle_loop (suc n) conn (no_pipe ∷ tries) w = gave_up w
handle_loop (suc n) conn (pipe p sent ∷ tries) w =
    let again = handle_loop n conn tries (close_conn p w) in
    if sent then joined conn p (after_join p conn w) else again

-- `handle`
unfoldable pub handle : ℕ → List Try → World → Forwarded
handle conn tries w = handle_loop 3 conn tries w

-- The pipes of the tries up to the one that succeeds.
abbrev pub failed_pipes : ℕ → List Try → List ℕ
failed_pipes zero tries = []
failed_pipes (suc n) [] = []
failed_pipes (suc n) (no_pipe ∷ tries) = []
failed_pipes (suc n) (pipe p true ∷ tries) = []
failed_pipes (suc n) (pipe p false ∷ tries) = p ∷ failed_pipes n tries
