-- ===== src/Server/System.antt =====
-- server/server.go: the whole server. Its managers share the map, the system and the port range; their
-- goroutines, the streams that come in and `awaitManagerDone` act in any order, a round at a time.
pub mod Invariant
pub mod Entries
pub mod Reachable
pub mod Served
use ae_ro_go.Base.{
  ℕ, ◌-◌, ◌≡◌, Bool, true, false, List, [], ◌++◌, Bytes, Option, none, some, length, get_elem?, set,
  replicate,
}
use ae_ro_go.Base.Int.{ℤ}
use ae_ro_go.Base.Chan.{done}
use ae_ro_go.Base.Dict.{lookup}
use ae_ro_go.Util.Ema.{Float}
use ae_ro_go.Netstat.Ports.{PortRange}
use ae_ro_go.Message.Frame.{Reader}
use ae_ro_go.Message.Codec.{Json}
use ae_ro_go.Server.World.{World}
use ae_ro_go.Server.Manager.{Manager}
use ae_ro_go.Server.Manager.Proxies.{Env}
use ae_ro_go.Server.Manager.Running.{Site, run_round}
use ae_ro_go.Server.Manager.Steps
use ae_ro_go.Server.Registry.{Server, ServerConfig, manager_done}
use ae_ro_go.Server.Registry.Streams.{handle_stream}

-- Where the goroutine `Run` of a manager is: in its loop, past it with the manager handed to
-- `mgrDone`, or taken out of `mgrDone` again.
pub data Phase : Type 0 where
  running ended buried : Phase

-- `go manager.Run()` for each manager that was made.
abbrev pub started : ℕ → List Phase → List Phase
started n phases = phases ++ replicate (n - length phases) running

module _ (float : Float) where
  pub record System : Type 0 where
    pub server : Server float
    pub range : PortRange
    pub phases : List Phase

  -- `NewServer`
  abbrev pub new_server : ServerConfig → PortRange → World → System
  new_server config range w = record {
    server = record { config = config; managers = []; heap = []; world = w };
    range = range;
    phases = [];
  }

  abbrev pub site : System → Manager float → Site float
  site s m = record { mgr = m; range = s.range; world = s.server.world }

  -- What a goroutine of the manager behind `p` has left, and where its `Run` is then.
  abbrev pub put : System → ℕ → Manager float → World → PortRange → Phase → System
  put s p m w range phase = record {
    server = record s.server { heap = set s.server.heap p m; world = w };
    range = range;
    phases = set s.phases p phase;
  }

  -- What a new stream has left, and the goroutines of the managers that it made.
  abbrev pub take_in : System → Server float → System
  take_in s server = record s { server = server; phases = started (length server.heap) s.phases }

  -- `acts` allows a round of `Run` also when `Run` has ended, which is more than the code does.
  pub data Step (s : System) : System → Type 0 where
    stream :
        (json : Json) (c : ℕ) (id : Bytes) (now : ℤ) (reader : Reader)
        → lookup id s.server.managers ≡ none
        → Step s (take_in s (handle_stream float json s.server c id now reader))
    acts :
        (p : ℕ) (m : Manager float) (phase : Phase) {t : Site float}
        → get_elem? s.server.heap p ≡ some m
        → get_elem? s.phases p ≡ some phase
        → Steps.Step float (site s m) t
        → Step s (put s p t.mgr t.world t.range phase)
    ends :
        (p : ℕ) (m : Manager float) (env : Env) {t : Site float}
        → get_elem? s.server.heap p ≡ some m
        → get_elem? s.phases p ≡ some running
        → run_round float env (site s m) ≡ done (false, t)
        → Step s (put s p t.mgr t.world t.range ended)
    buries :
        (p : ℕ) (m : Manager float)
        → get_elem? s.server.heap p ≡ some m
        → get_elem? s.phases p ≡ some ended
        → Step s (record s {
          server = (manager_done float s.server p m).1;
          phases = set s.phases p buried;
        })

  pub data Reach (s : System) : System → Type 0 where
    here : Reach s s
    later : {t u : System} → Reach s t → Step t u → Reach s u
