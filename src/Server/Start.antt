-- ===== src/Server/Start.antt =====
-- server/main.go, server/server.go and server/proxy.go: the start of the server, and the loops that
-- accept connections and streams and start a goroutine for each.
use ae_ro_go.Base.{
  ℕ, ◌≡◌, sym, ◌∙◌, Bool, true, false, List, [], ◌∷◌, ◌++◌, append-nil, append_assoc, Bytes,
  bytes_eq, Option, none, some, if◌then◌else◌,
}
use ae_ro_go.Base.Eq.{contains, ℕ_eq}
use ae_ro_go.Util.Ema.{Float}
use ae_ro_go.Netstat.Ports.{set_port_range}
use ae_ro_go.Server.World.{World}
use ae_ro_go.Server.Registry.{ServerConfig}
use ae_ro_go.Server.System.{System, new_server}

-- `net.JoinHostPort`: brackets around a host with a colon.
unfoldable pub join_host_port : Bytes → Bytes → Bytes
join_host_port host port =
    if contains host b':' then b'[' ∷ (host ++ (b']' ∷ (b':' ∷ port))) else host ++ (b':' ∷ port)

-- How a loop of `Accept` goes on: it waits, with a goroutine started for each item, or it has ended
-- with an error.
pub data Accepting {ℓ} (A : Type ℓ) : Type ℓ where
  waits : List A → Accepting A
  ended : List A → Accepting A

-- The items that `Accept` has given so far; `none` is an error.
unfoldable pub accept_loop {ℓ} : {A : Type ℓ} → List A → List (Option A) → Accepting A
accept_loop handled [] = waits handled
accept_loop handled (none ∷ more) = ended handled
accept_loop handled (some a ∷ more) = accept_loop (handled ++ a ∷ []) more

-- `Run` of a proxy: the connections that are handed to `handle`.
unfoldable pub run_proxy : List (Option ℕ) → Accepting ℕ
run_proxy conns = accept_loop [] conns

-- `Handle`: the streams of a connection that are handed to `HandleStream`; `none` if no session could
-- be made of it.
unfoldable pub handle_conn {ℓ} :
    {A : Type ℓ} → (session : Bool) → List (Option A) → Option (Accepting A)
handle_conn session streams = if session then some (accept_loop [] streams) else none

-- `Run` of the server: an error of `net.Listen`, or the loop, with `awaitManagerDone` started.
pub data Served : Type 0 where
  no_listener : Bytes → Served
  serves : (manager_done_started : Bool) → Accepting ℕ → Served

unfoldable pub run_server : (address : Bytes) → (Bytes → Option Bytes) → List (Option ℕ) → Served
run_server address listen conns = elim (listen address) [
  | some why ↦ no_listener why
  | none ↦ serves true (accept_loop [] conns)
]

-- `main`, after `flag.Parse`: whether the log goes to a file, and what `Run` of the new server does.
unfoldable pub start :
    ServerConfig → Bool → (Bytes → Option Bytes) → List (Option ℕ) → Bool × Served
start config opened listen conns = (
  (if bytes_eq config.log_file [] then false else opened),
  run_server (join_host_port config.ip config.port) listen conns,
)

module _ (float : Float) where
  -- `NewServer`, with the port range that it sets; `perms` are the permutations of `randInts`.
  unfoldable pub boot : ServerConfig → (ℕ → ℕ → ℕ) → World → System float
  boot config perms w =
      new_server float config
        (set_port_range config.start_port config.end_port config.force_range perms) w

-- The items in front of the first error.
abbrev pub until_error {ℓ} : {A : Type ℓ} → List (Option A) → List A
until_error [] = []
until_error (none ∷ more) = []
until_error (some a ∷ more) = a ∷ until_error more

abbrev pub handled_of {ℓ} : {A : Type ℓ} → Accepting A → List A
handled_of (waits l) = l
handled_of (ended l) = l

-- A loop of `Accept` starts a goroutine for every item in front of the first error, in their order,
-- and for no other.
pub accept_loop_lem {ℓ} :
    {A : Type ℓ} (handled : List A) (items : List (Option A))
    → handled_of (accept_loop handled items) ≡ handled ++ until_error items
unfolding accept_loop
accept_loop_lem handled [] = sym (append-nil handled)
accept_loop_lem handled (none ∷ more) = sym (append-nil handled)
accept_loop_lem handled (some a ∷ more) =
    accept_loop_lem (handled ++ a ∷ []) more ∙ append_assoc handled (a ∷ []) (until_error more)
