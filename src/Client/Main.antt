-- ===== src/Client/Main.antt =====
-- client/main.go: `main`, from the flags to the client that runs.
use ae_ro_go.Base.{
  ◌∙◌, ap, List, ◌∷◌, All, get_elem?-All, ℕ, ◌≡◌, ◌≢◌, refl, Bool, false, [], Bytes, bytes_eq,
  bytes_eq_iff, codes, none, some, get_elem?, if◌then◌else◌, arith,
}
use ae_ro_go.Base.Int.{ℤ}
use ae_ro_go.Base.Dict.{Dict, lookup}
use ae_ro_go.Client.{Proxy, ClientConfig, Client, new_client}
use ae_ro_go.Client.Targets.{parse_targets}
use ae_ro_go.Client.Targets.Written.{
  Target, written_list, stands_for, IsPlain, NamesDiffer, parse_targets-written,
}

-- The flags, as `flag.Parse` leaves them.
pub record Flags : Type 0 where
  pub host : Bytes
  pub tag : Bytes
  pub server : Bytes
  pub auth : Bytes
  pub log : Bytes
  pub debug : Bool
  pub beat : ℤ
  pub pool : ℤ
  pub target : Bytes

-- `cfg`, with the proxies of the target list.
unfoldable pub config_of : Flags → Dict Proxy → ClientConfig
config_of flags proxies = record {
  name = flags.host;
  tag = flags.tag;
  server_addr = flags.server;
  auth_code = flags.auth;
  pool_size = flags.pool;
  log_file = flags.log;
  proxies = proxies;
  heartbeat_interval = flags.beat;
  debug = flags.debug;
}

-- Whether the log goes to a file: `opened` tells whether that can be opened.
unfoldable pub logs_to_file : Flags → Bool → Bool
logs_to_file flags opened = if bytes_eq flags.log [] then false else opened

-- `main` returns with a message, or runs a client.
pub data Started : Type 0 where
  refused : Bytes → Started
  runs : Client → (to_file : Bool) → Started

unfoldable pub start : Flags → Bool → Started
start flags opened =
    if bytes_eq flags.target []
    then refused (codes "target is empty")
    else if bytes_eq flags.host []
    then refused (codes "name is empty")
    else if bytes_eq flags.tag []
    then refused (codes "tag is empty")
    else elim (parse_targets flags.target) [
      | none ↦ refused (codes "duplicate target name")
      | some proxies ↦ runs (new_client (config_of flags proxies)) (logs_to_file flags opened)
    ]

-- What `main` needs to run a client with these proxies.
abbrev pub Complete : Flags → Dict Proxy → Type 0
Complete flags proxies =
    (flags.target ≢ [])
    × (flags.host ≢ [])
    × (flags.tag ≢ [])
    × (parse_targets flags.target ≡ some proxies)

start-runs :
    (flags : Flags) (opened : Bool) (proxies : Dict Proxy)
    → Complete flags proxies
    → start flags opened ≡ runs (new_client (config_of flags proxies)) (logs_to_file flags opened)
unfolding start
start-runs flags opened proxies (target, host, tag, parsed) =
    rw (start, filled flags.target target, filled flags.host host, filled flags.tag tag, parsed)
      refl
  where
    filled : (s : Bytes) → s ≢ [] → bytes_eq s [] ≡ false
    filled s h = ground (arith, bytes_eq_iff s [])

-- With a host name and a tag that are not empty, and with a list of targets that are written without
-- `@` and `,` in their parts, that have different names and that are not one empty address, `main`
-- runs a client, whatever becomes of the log file. It has the tag and the code of the flags and no id
-- yet, and under the name of each target a proxy that is not started, with the target's address, and
-- with its remote port or 0. A target without a name has its number for one.
pub start_lem :
    (flags : Flags) (opened : Bool) (t : Target) (ts : List Target) (k : ℕ) (u : Target)
    → flags.target ≡ written_list (t ∷ ts)
    → All IsPlain (t ∷ ts)
    → NamesDiffer 0 (t ∷ ts)
    → get_elem? (t ∷ ts) k ≡ some u
    → flags.target ≢ []
    → flags.host ≢ []
    → flags.tag ≢ []
    → (client : Client) × (to_file : Bool) × (start flags opened ≡ runs client to_file)
      × (client.client_id ≡ [])
      × (client.config.tag ≡ flags.tag)
      × (client.config.auth_code ≡ flags.auth)
      × (lookup (stands_for k u).name client.config.proxies ≡ some (stands_for k u))
unfolding new_client config_of
start_lem flags opened t ts k u list plain differ at target host tag =
    let (proxies, parsed, found) = parse_targets-written t ts plain differ in
    (
      new_client (config_of flags proxies),
      logs_to_file flags opened,
      start-runs flags opened proxies (target, host, tag, ap parse_targets list ∙ parsed),
      refl,
      refl,
      refl,
      found k u at (get_elem?-All IsPlain (t ∷ ts) k plain at),
    )
