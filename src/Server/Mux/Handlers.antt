-- ===== src/Server/Mux/Handlers.antt =====
-- server/mux.go: `MuxServer` and the handlers of its two modes, on what the web framework gives them.
use ae_ro_go.Base.{
  List, [], ◌∷◌, ◌++◌, Bytes, bytes_eq, codes, Option, none, some, length, drop, if◌then◌else◌,
}
use ae_ro_go.Util.Ema.{Float}
use ae_ro_go.Util.Text.{has_prefix}
use ae_ro_go.Server.Manager.{Manager}
use ae_ro_go.Server.Registry.{Server}
use ae_ro_go.Server.Mux.{Balancer, select_port, domain_route}

-- A request as `fiber.Ctx` presents it. The two parameters are those of the route `/:tag/:name/*`.
pub record Ctx : Type 0 where
  pub param_tag : Bytes
  pub param_name : Bytes
  pub original_url : Bytes
  pub protocol : Bytes
  pub hostname : Bytes
  pub ip : Bytes

-- What becomes of a request: status 404, an answer from the url that it was sent to, with `X-Real-IP`
-- as the header that was added, the error of that, or a panic of the handler.
pub data Handled : Type 0 where
  not_found : Handled
  forwarded : (url real_ip : Bytes) → Handled
  failed : (url why : Bytes) → Handled
  panicked : Handled

-- `strings.TrimPrefix`
unfoldable pub trim_prefix : Bytes → Bytes → Bytes
trim_prefix s prefix = if has_prefix s prefix then drop (length prefix) s else s

-- `c.Protocol() + "://localhost:" + selected`, and the target behind it.
unfoldable pub url_to : Ctx → Bytes → Bytes → Bytes
url_to c selected target = c.protocol ++ (codes "://localhost:" ++ (selected ++ target))

-- The end of both handlers; `answer` is what `proxy.Do` comes to, an error's text or none.
unfoldable pub forward : (Bytes → Option Bytes) → Ctx → Bytes → Bytes → Handled
forward answer c [] target = not_found
forward answer c (b ∷ selected) target =
    let url = url_to c (b ∷ selected) target in
    elim (answer url) [ none ↦ forwarded url c.ip | some why ↦ failed url why ]

-- What follows the tag and the name in the path.
unfoldable pub path_target : Ctx → Bytes
path_target c = trim_prefix c.original_url (b'/' ∷ (c.param_tag ++ (b'/' ∷ c.param_name)))

module _ (float : Float) where
  -- A handler, on what the network, the server and the request are at its call. The managers come
  -- in the order in which `range` visits them.
  abbrev pub Handler : Type 0
  Handler =
      (Bytes → Option Bytes)
      → Server float
      → List (Manager float)
      → Balancer
      → Ctx
      → Handled × Balancer

  -- The handler of `/:tag/:name/*`.
  unfoldable pub path_handler : Handler
  path_handler answer s visited balancer c =
      let (selected, balancer') = select_port float s visited balancer c.param_tag c.param_name in
      (forward answer c selected (path_target c), balancer')

  -- The handler of `/`, where the server has a domain.
  unfoldable pub domain_handler : Bytes → Handler
  domain_handler domain answer s visited balancer c = elim (domain_route c.hostname domain) [
    | none ↦ (panicked, balancer)
    | some (tag, name) ↦
        let (selected, balancer') = select_port float s visited balancer tag name in
        (forward answer c selected c.original_url, balancer')
  ]

  -- The handler that `MuxServer` registers for all but `/metrics`; with no address there is none.
  unfoldable pub mux_server : Bytes → Bytes → Option Handler
  mux_server addr domain =
      if bytes_eq addr []
      then none
      else if bytes_eq domain []
      then some path_handler
      else some (domain_handler domain)
