-- ===== src/Client/Runs.antt =====
-- Runs of the client at concrete inputs.
use ae_ro_go.Base.{
  ℕ, All, ◌≢◌, bytes_eq_iff, ◌≡◌, ◌⊎◌, ◌↔◌, refl, Bool, true, false, List, [], ◌∷◌, Bytes, bytes_eq,
  codes, none, some, arith,
}
use ae_ro_go.Base.Int.{pos, ltb_ℤ, wrap64, halve, ◌*ℤ◌, ◌+ℤ◌}
use ae_ro_go.Base.Chan.{done, panicked, send}
use ae_ro_go.Base.Dict.{Dict, lookup, insert}
use ae_ro_go.Base.Decimal.{utoa}
use ae_ro_go.Util.Text.{split, cut, has_prefix}
use ae_ro_go.Util.Whole.{whole}
use ae_ro_go.Message.{HeartbeatRequest, heartbeat_request, pipe_request, eof, ok}
use ae_ro_go.Server.Registry.{ServerConfig, Server}
use ae_ro_go.Client.{Proxy, ClientConfig, Client}
use ae_ro_go.Client.Targets.{parse_targets, parse_loop, target_of, of_parts}
use ae_ro_go.Client.Agent.{
  Clock, Agent, new_agent, run_receive, start_heartbeat, reset_ticker, receive_round,
}
use ae_ro_go.Client.Agent.Race.{two_calls, calls, back, two_calls_race}
use ae_ro_go.Client.Agent.{close_agent}
use ae_ro_go.Client.Reconnect.{Dialed, no_conn, dialed}
use ae_ro_go.Client.Agent.Laws.{Inv, BeatFirst, EchoFirst, new_agent-Inv, run_receive_panics}
use ae_ro_go.Client.Agent.Steps.{Step, starts, reads, here, later, Reach-new_agent-Inv}
use ae_ro_go.Base.Eq.{contains, ℕ_eq}
use ae_ro_go.Util.Text.{join}
use ae_ro_go.Util.Text.Parts.{Lacks}
use ae_ro_go.Client.Targets.Written.{
  Target, named, bare, written_list, stands_for, IsPlain, NamesDiffer,
}
use ae_ro_go.Client.Main.{Flags, start, runs, start_lem}

-- Three targets, in the three forms.
abbrev targets : Bytes
targets = codes "web@127.0.0.1:80@8001,ssh@127.0.0.1:22,db"

abbrev web : Proxy
web = target_of 0 (codes "web@127.0.0.1:80@8001")

abbrev known : Dict Proxy
known =
    (codes "web", web)
    ∷ (codes "ssh", target_of 1 (codes "ssh@127.0.0.1:22"))
    ∷ (codes "2", target_of 2 (codes "db"))
    ∷ []

parse_run : parse_targets targets ≡ some known
unfolding parse_targets parse_loop of_parts split cut has_prefix lookup insert bytes_eq utoa
parse_run = refl

-- Two targets of one name.
parse_twice_run : parse_targets (codes "web@a,web@b") ≡ none
unfolding parse_targets parse_loop of_parts split cut has_prefix lookup insert bytes_eq
parse_twice_run = refl

abbrev client_config : ClientConfig
client_config = record {
  name = codes "laptop";
  tag = codes "t";
  server_addr = codes "127.0.0.1:8080";
  auth_code = codes "s";
  pool_size = pos 2;
  log_file = [];
  proxies = [];
  heartbeat_interval = pos 60;
  debug = false;
}

abbrev client : Client
client = record { config = client_config; client_id = []; server_addr = codes "127.0.0.1:8080" }

abbrev config : ServerConfig
config = record {
  ip = [];
  port = codes "8080";
  auth_code = codes "s";
  log_file = [];
  debug = false;
  start_port = pos 8000;
  end_port = pos 8004;
  force_range = true;
  api = [];
  mux_addr = [];
  domain = [];
}

abbrev server : Server whole
server = record {
  config = config;
  managers = [];
  heap = [];
  world = record { open_listeners = []; next_listener = 0; closed_conns = []; sent = [] };
}

abbrev noon : Clock
noon = record { nanos = pos 5000; micros = pos 5 }

abbrev agent : Agent
agent = new_agent client noon

agent-Inv : Inv agent
agent-Inv = new_agent-Inv client noon

-- The interval is a minute, half of which is added to the clock.
abbrev ticking : Agent
ticking = record agent { ticker_from = pos 5000; last_beat_time = pos 30000005000 }

abbrev waiting : Agent
waiting = record ticking {
  recv_chan = record {
    buf = pipe_request (record { client_id = [] }) ∷ [];
    cap = 10;
    closed = false;
  };
}

read_step : Step ticking waiting
unfolding new_agent receive_round send
read_step =
    reads (ok (pipe_request (record { client_id = [] }), record { chunks = []; last = eof })) refl

ticking_start : start_heartbeat noon agent ≡ done ticking
unfolding start_heartbeat reset_ticker new_agent wrap64 halve ◌*ℤ◌ ◌+ℤ◌
ticking_start = refl

Reach-new_agent-Inv_example : Inv waiting
Reach-new_agent-Inv_example =
    Reach-new_agent-Inv client noon (later (later here (starts noon ticking_start)) read_step)

abbrev beat : HeartbeatRequest
beat = record { timestamp = pos 3 }

-- The server's heartbeat was read, then the connection was lost.
abbrev late : Agent
late = record agent {
  closed = true;
  conn_closed = true;
  recv_chan = record { buf = heartbeat_request beat ∷ []; cap = 10; closed = true };
  send_chan = record { buf = []; cap = 10; closed = true };
}

late-Inv : Inv late
late-Inv = record {
  recv_closed = refl;
  send_closed = refl;
  conn_too = refl;
  recv_fits = omega arith;
  send_fits = omega arith;
}

run_receive_panics_example : (run_receive noon late ≡ panicked) ↔ (
    (((late.closed ≡ true) ⊎ (ltb_ℤ (pos 0) late.heartbeat_interval ≡ false))
      × BeatFirst late.recv_chan.buf)
    ⊎ ((ltb_ℤ (pos 0) late.heartbeat_interval ≡ false) × EchoFirst late.recv_chan.buf))
run_receive_panics_example = run_receive_panics noon late late-Inv

-- The turns behind the first two.
abbrev turns : List Bool
turns = true ∷ false ∷ false ∷ true ∷ false ∷ []

two_calls_race_example :
    ((a' : Agent) × (close_agent agent ≡ done a')
      × (two_calls (false ∷ false ∷ turns) agent calls calls ≡ done (a', back, back)))
    × (two_calls (false ∷ true ∷ turns) agent calls calls ≡ panicked)
    × (two_calls (true ∷ false ∷ turns) agent calls calls ≡ panicked)
two_calls_race_example =
    two_calls_race agent turns agent-Inv (unfold new_agent in refl) (omega arith) (omega arith)

-- One try does not reach the server, the next one gets no answer.
abbrev tries : List Dialed
tries =
    no_conn
    ∷ dialed (record { out = []; broken = false }) (record { chunks = []; last = eof }) noon
        (λ a. a)
    ∷ []

abbrev started_flags : Flags
started_flags = record {
  host = codes "laptop";
  tag = codes "t";
  server = codes "127.0.0.1:8080";
  auth = codes "s";
  log = [];
  debug = false;
  beat = pos 60;
  pool = pos 2;
  target = targets;
}

lacks : (b : ℕ) (s : Bytes) → contains s b ≡ false → Lacks b s
unfolding contains
lacks b [] h = tt
lacks b (c ∷ s) h = ((λ e. ground (arith, e)), lacks b s (ground arith))

plain_part :
    (s : Bytes) → contains s b'@' ≡ false → contains s b',' ≡ false → Lacks b'@' s × Lacks b',' s
plain_part s h k = (lacks b'@' s h, lacks b',' s k)

-- The same three targets.
abbrev more_targets : List Target
more_targets = named (codes "ssh") (codes "127.0.0.1:22") ∷ bare (codes "db") ∷ []

abbrev web_target : Target
web_target = Target.whole (codes "web") (codes "127.0.0.1:80") (codes "8001")

targets_written : targets ≡ written_list (web_target ∷ more_targets)
unfolding join
targets_written = refl

plain : All IsPlain (web_target ∷ more_targets)
unfolding contains
plain = (
  (
    plain_part (codes "web") refl refl,
    plain_part (codes "127.0.0.1:80") refl refl,
    plain_part (codes "8001") refl refl,
  ),
  (
    (plain_part (codes "ssh") refl refl, plain_part (codes "127.0.0.1:22") refl refl),
    (plain_part (codes "db") refl refl, tt),
  ),
)

other_text : (s t : Bytes) → bytes_eq s t ≡ false → s ≢ t
other_text s t f e = cc (f, (bytes_eq_iff s t).1 e)

differ : NamesDiffer 0 (web_target ∷ more_targets)
unfolding utoa bytes_eq
differ = ((other_text _ _ refl, (other_text _ _ refl, tt)), ((other_text _ _ refl, tt), (tt, tt)))

start_lem_example :
    (client : Client) × (to_file : Bool) × (start started_flags true ≡ runs client to_file)
    × (client.client_id ≡ [])
    × (client.config.tag ≡ codes "t")
    × (client.config.auth_code ≡ codes "s")
    × (lookup (codes "web") client.config.proxies ≡ some (stands_for 0 web_target))
start_lem_example =
    start_lem started_flags true web_target more_targets 0 web_target targets_written plain differ
      refl (λ h. cc) (λ h. cc) (λ h. cc)
