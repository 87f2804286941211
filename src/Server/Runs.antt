-- ===== src/Server/Runs.antt =====
-- Runs of the server at concrete inputs.
mod Served
mod Web
mod Ending
use ae_ro_go.Base.{
  ◌==◌, ℕ, ◌+◌, ◌%◌, ◌≡◌, ◌↔◌, refl, true, false, List, [], ◌∷◌, ◌++◌, Bytes, bytes_eq, codes, none,
  some, All, length, get_or, if◌then◌else◌,
}
use ae_ro_go.Base.Int.{pos}
use ae_ro_go.Base.Eq.{contains, ℕ_eq}
use ae_ro_go.Base.Dict.{lookup}
use ae_ro_go.Util.Uid.{IsAlnum}
use ae_ro_go.Util.Whole.{whole}
use ae_ro_go.Util.Legal.{IsWordByte}
use ae_ro_go.Netstat.Ports.{PortRange}
use ae_ro_go.Netstat.Ports.Range.{ranged}
use ae_ro_go.Message.{eof}
use ae_ro_go.Message.Frame.{Reader}
use ae_ro_go.Message.Sample.{sample, login, login_text}
use ae_ro_go.Server.World.{World}
use ae_ro_go.Server.Manager.{Manager, new_manager, push_pipe_conn, mgr_closed, pool_full}
use ae_ro_go.Base.{◌==◌}
use ae_ro_go.Message.{ProxyRequest}
use ae_ro_go.Server.Proxy.{listening}
use ae_ro_go.Server.Manager.Proxies.{Env, register_proxy, remove_proxy}
use ae_ro_go.Server.Manager.ProxyLaws.{Registered, register_proxy-Registered, remove_proxy_lem}
use ae_ro_go.Server.Manager.Closing.{close_manager, finished}
use ae_ro_go.Server.Manager.Invariant.{Inv, new_manager-Inv, push_pipe_conn_lem}
use ae_ro_go.Server.Manager.Release.{Released, close_manager-Released, close_manager_again}
use ae_ro_go.Server.Manager.Steps.{here, later, push, Reach-new_manager-Inv}
use ae_ro_go.Server.Registry.{ServerConfig, check_login, Server}
use ae_ro_go.Server.Registry.Ids.{gen_id, gen_id_lem}
use ae_ro_go.Server.Registry.Streams.{handle_stream}
use ae_ro_go.Server.Registry.StreamLaws.{check_login_iff, Kept, handle_stream-Kept}
use ae_ro_go.Server.Mux.{RoundRobin, update, trim_suffix, domain_route}
use ae_ro_go.Server.Mux.Balance.{after, picks, update_cycles, picks_first}
use ae_ro_go.Server.Mux.Select.{domain_route_lem, domain_route_panics}
use ae_ro_go.Server.Forward.{Try, pipe}

abbrev config : ServerConfig
config = record {
  ip = [];
  port = codes "8080";
  auth_code = codes "s";
  log_file = [];
  debug = false;
  start_port = pos 8000;
  end_port = pos 8004;
  force_range = true;
  api = [];
  mux_addr = [];
  domain = codes "example.org";
}

abbrev quiet : World
quiet = record { open_listeners = 1 ∷ 0 ∷ []; next_listener = 2; closed_conns = []; sent = [] }

-- A manager on connection 7, with no proxy yet.
abbrev fresh : Manager whole
fresh = new_manager whole (codes "abcdefgh") 7 (pos 1000) login

fresh-Inv : Inv whole fresh
fresh-Inv = new_manager-Inv whole (codes "abcdefgh") 7 (pos 1000) login

-- The same, with a proxy that listens.
abbrev serving : Manager whole
serving = record fresh {
  proxies =
      (
        codes "web",
        record {
          name = codes "web";
          port = codes "8001";
          remote = codes "127.0.0.1:80";
          listener = 1;
        },
      )
      ∷ [];
}

serving-Inv : Inv whole serving
serving-Inv = record {
  send_closed = fresh-Inv.send_closed;
  recv_closed = fresh-Inv.recv_closed;
  pool_closed = fresh-Inv.pool_closed;
  send_fits = fresh-Inv.send_fits;
  recv_fits = fresh-Inv.recv_fits;
  pool_fits = fresh-Inv.pool_fits;
  pool_cap = fresh-Inv.pool_cap;
  pool_low = fresh-Inv.pool_low;
  pool_high = fresh-Inv.pool_high;
}

close_manager-Released_example : Released whole serving quiet (close_manager whole serving quiet)
unfolding new_manager
close_manager-Released_example = close_manager-Released whole serving quiet serving-Inv refl

abbrev ports : PortRange
ports = ranged (pos 8000) (pos 8004) true (λ k i. i) 0

Reach-new_manager-Inv_example :
    Inv whole (push_pipe_conn whole (push_pipe_conn whole fresh 9).1 10).1
Reach-new_manager-Inv_example =
    Reach-new_manager-Inv whole (codes "abcdefgh") 7 (pos 1000) login ports quiet
      (later (later here (push 9)) (push 10))

abbrev request : ProxyRequest
request = record {
  name = codes "web";
  typ = codes "tcp";
  port = codes "8003";
  target = codes "10.0.0.1:80";
  enable = true;
}

abbrev env : Env
env = record {
  probe = λ p. true;
  answer = λ addr. listening (codes "[::]" ++ addr);
  now = pos 2000;
}

register_proxy-Registered_example :
    Registered whole serving quiet request (register_proxy whole env serving request ports quiet)
register_proxy-Registered_example = register_proxy-Registered whole env serving request ports quiet

remove_proxy_lem_example :
    let (m', w') = remove_proxy whole serving request quiet in
    ((n : Bytes)
      → lookup n m'.proxies ≡ (if bytes_eq request.name n then none else lookup n serving.proxies))
    × ((l : ℕ)
        → contains w'.open_listeners l ≡ elim (lookup request.name serving.proxies) [
          | none ↦ contains quiet.open_listeners l
          | some p ↦ if p.listener == l then false else contains quiet.open_listeners l
        ])
remove_proxy_lem_example = remove_proxy_lem whole serving request quiet

abbrev login_frame : Reader
login_frame = record { chunks = codes "<l" ∷ (0 ∷ 0 ∷ 0 ∷ 31 ∷ []) ∷ login_text ∷ []; last = eof }

gen_id_lem_example :
    (id : Bytes) × (used : ℕ) × (gen_id (λ k. k) [] 3 0 (codes "AAAAAAAA") ≡ some (id, used))
    × (lookup {V = ℕ} id [] ≡ none)
    × (length id ≡ 8)
    × All IsAlnum id
gen_id_lem_example = gen_id_lem (λ k. k) [] 2 0 (codes "AAAAAAAA") refl (unfold lookup in refl)

abbrev addresses : List Bytes
addresses = codes "8001" ∷ codes "8002" ∷ codes "8003" ∷ []

picks_first_example :
    picks [] (codes "t") (addresses ∷ addresses ∷ []) ≡ codes "8001" ∷ codes "8001" ∷ []
picks_first_example = picks_first (codes "t") (addresses ∷ addresses ∷ [])

-- The first two pipes fail, the third serves the connection.
abbrev tries : List Try
tries = pipe 4 false ∷ pipe 5 false ∷ pipe 6 true ∷ []
