-- ===== src/Server/Mux/Routed.antt =====
-- server/mux.go: where the handlers of `MuxServer` send a request.
use ae_ro_go.Base.{
  ◌≡◌, ◌≢◌, refl, ap, ◌∙◌, ◌⊎◌, inl, inr, true, false, List, [], ◌∷◌, ◌++◌, Bytes, bytes_eq,
  bytes_eq_iff, Option, none, some, Bool-cases, Option-cases, drop-append_self, arith,
}
use ae_ro_go.Util.Ema.{Float}
use ae_ro_go.Util.Text.{has_prefix}
use ae_ro_go.Util.Text.Parts.{Lacks}
use ae_ro_go.Server.Manager.{Manager}
use ae_ro_go.Server.Registry.{Server}
use ae_ro_go.Server.Mux.{Balancer, select_port, trim_suffix, domain_route}
use ae_ro_go.Server.Mux.Handlers.{
  Ctx, Handled, not_found, forwarded, failed, panicked, trim_prefix, url_to, forward, path_target,
  Handler, path_handler, domain_handler, mux_server,
}
use ae_ro_go.Server.Mux.Offers.{Offered, select_port-Offered}
use ae_ro_go.Server.Mux.Select.{domain_route_lem, domain_route_panics}

-- The answer to a request that is sent on to a port.
abbrev pub sent_on : (Bytes → Option Bytes) → Ctx → Bytes → Bytes → Handled
sent_on answer c port target = elim (answer (url_to c port target)) [
  | none ↦ forwarded (url_to c port target) c.ip
  | some why ↦ failed (url_to c port target) why
]

forward_port :
    (answer : Bytes → Option Bytes) (c : Ctx) (port target : Bytes)
    → port ≢ []
    → forward answer c port target ≡ sent_on answer c port target
unfolding forward
forward_port answer c [] target h = absurd (h refl)
forward_port answer c (b ∷ port) target h = refl

has_prefix-append : (p s : Bytes) → has_prefix (p ++ s) p ≡ true
unfolding has_prefix
has_prefix-append [] s = refl
has_prefix-append (b ∷ p) s = ground (arith, has_prefix-append p s)

-- The tag and the name are cut off the path, if it starts with them.
pub path_target_lem :
    (c : Ctx) (rest : Bytes)
    → c.original_url ≡ (b'/' ∷ (c.param_tag ++ (b'/' ∷ c.param_name))) ++ rest
    → path_target c ≡ rest
unfolding path_target trim_prefix
path_target_lem c rest h =
    let front = b'/' ∷ (c.param_tag ++ (b'/' ∷ c.param_name)) in
    rw (h, has_prefix-append front rest) (drop-append_self front rest)

module _ (float : Float) where
  -- The tag, the name and the target of a request, in the mode that the domain gives.
  abbrev pub RoutesTo : Bytes → Ctx → Bytes → Bytes → Bytes → Type 0
  RoutesTo domain c tag name target =
      ((domain ≡ []) × (tag ≡ c.param_tag) × (name ≡ c.param_name) × (target ≡ path_target c))
      ⊎ ((domain ≢ [])
          × (domain_route c.hostname domain ≡ some (tag, name))
          × (target ≡ c.original_url))

  -- What the handler does for a tag and a name: status 404, if no port is offered or the one that is
  -- chosen is empty, or the request goes on to an offered port of this machine.
  abbrev pub Routed :
      (Bytes → Option Bytes)
      → Server float
      → List (Manager float)
      → Ctx
      → Bytes
      → Bytes
      → Bytes
      → Handled
      → Type 0
  Routed answer s visited c tag name target handled =
      ((handled ≡ not_found)
        × (((port : Bytes) → ¬ Offered float s visited tag name port)
            ⊎ Offered float s visited tag name []))
      ⊎ ((port : Bytes) × Offered float s visited tag name port
          × (port ≢ [])
          × (handled ≡ sent_on answer c port target))

  forward-Routed :
      (answer : Bytes → Option Bytes) (s : Server float) (visited : List (Manager float))
      (balancer : Balancer) (c : Ctx) (tag name target : Bytes)
      → Routed answer s visited c tag name target
          (forward answer c (select_port float s visited balancer tag name).0 target)
  forward-Routed answer s visited balancer c tag name target =
      elim (select_port-Offered float s visited balancer tag name) [
        | inl (empty, nobody) ↦ inl (rw empty (unfold forward in refl), inl nobody)
        | inr offered ↦ go (select_port float s visited balancer tag name).0 offered
      ]
    where
      go :
          (port : Bytes)
          → Offered float s visited tag name port
          → Routed answer s visited c tag name target (forward answer c port target)
      go [] offered = inl (unfold forward in refl, inr offered)
      go (b ∷ port) offered =
          let filled : b ∷ port ≢ [] = λ e. cc in
          inr (b ∷ port, offered, filled, forward_port answer c (b ∷ port) target filled)

  path_handler-Routed :
      (answer : Bytes → Option Bytes) (s : Server float) (visited : List (Manager float))
      (balancer : Balancer) (c : Ctx)
      → Routed answer s visited c c.param_tag c.param_name
          (path_target c)
          (path_handler float answer s visited balancer c).0
  unfolding path_handler
  path_handler-Routed answer s visited balancer c =
      forward-Routed answer s visited balancer c c.param_tag c.param_name (path_target c)

  domain_handler-Routed :
      (domain : Bytes) (answer : Bytes → Option Bytes) (s : Server float)
      (visited : List (Manager float)) (balancer : Balancer) (c : Ctx) (tag name : Bytes)
      → domain_route c.hostname domain ≡ some (tag, name)
      → Routed answer s visited c tag name c.original_url
          (domain_handler float domain answer s visited balancer c).0
  unfolding domain_handler
  domain_handler-Routed domain answer s visited balancer c tag name e =
      let done : (domain_handler float domain answer s visited balancer c).0
          ≡ forward answer c (select_port float s visited balancer tag name).0 c.original_url =
        rw (domain_handler, e) refl in
      rw done (forward-Routed answer s visited balancer c tag name c.original_url)

  -- With an address, `MuxServer` has a handler. It reads tag and name off the path, or off the host
  -- if there is a domain; then the request goes, with the rest of the path or with the whole url, to
  -- a port that a proxy of that name has at a client of that tag or id, or the answer is 404. Only a
  -- host that has no tag and name makes it panic.
  pub mux_server-Routed :
      (addr domain : Bytes) (answer : Bytes → Option Bytes) (s : Server float)
      (visited : List (Manager float)) (balancer : Balancer) (c : Ctx)
      → addr ≢ []
      → (handler : Handler float) × (mux_server float addr domain ≡ some handler)
        × (((tag name target : Bytes) × RoutesTo domain c tag name target
              × Routed answer s visited c tag name target (handler answer s visited balancer c).0)
            ⊎ ((domain ≢ [])
                × (domain_route c.hostname domain ≡ none)
                × ((handler answer s visited balancer c).0 ≡ panicked)))
  unfolding mux_server domain_handler
  mux_server-Routed addr domain answer s visited balancer c h =
      let on : bytes_eq addr [] ≡ false = ground (arith, bytes_eq_iff addr []) in
      elim (Bool-cases (bytes_eq domain [])) [
        | inl t ↦ (
          path_handler float,
          rw (on, t) refl,
          inl (
            c.param_tag,
            c.param_name,
            path_target c,
            inl ((bytes_eq_iff domain []).0 t, refl, refl, refl),
            path_handler-Routed answer s visited balancer c,
          ),
        )
        | inr f ↦
            let some_domain : domain ≢ [] = λ e. cc (f, (bytes_eq_iff domain []).1 e) in
            (
              domain_handler float domain,
              rw (on, f) refl,
              elim (Option-cases (domain_route c.hostname domain)) [
                | inl n ↦ inr (some_domain, n, rw (domain_handler, n) refl)
                | inr ((tag, name), e) ↦ inl (
                  tag,
                  name,
                  c.original_url,
                  inr (some_domain, e, refl),
                  domain_handler-Routed domain answer s visited balancer c tag name e,
                )
              ],
            )
      ]

  -- A request for the host `<tag>.<name>.<domain>`, with no dot in the tag and none in the name, is
  -- sent on with its whole url to an offered port, if there is one and none is empty.
  pub domain_handler-sent_on :
      (domain : Bytes) (answer : Bytes → Option Bytes) (s : Server float)
      (visited : List (Manager float)) (balancer : Balancer) (c : Ctx) (tag name port : Bytes)
      → Lacks b'.' tag
      → Lacks b'.' name
      → c.hostname ≡ (tag ++ (b'.' ∷ (name ++ (b'.' ∷ [])))) ++ domain
      → Offered float s visited tag name port
      → ¬ Offered float s visited tag name []
      → (chosen : Bytes) × Offered float s visited tag name chosen
        × ((domain_handler float domain answer s visited balancer c).0
            ≡ sent_on answer c chosen c.original_url)
  domain_handler-sent_on domain answer s visited balancer c tag name port ht hn host offered full =
      let route = ap (λ h. domain_route h domain) host ∙ domain_route_lem tag name domain ht hn in
      elim (domain_handler-Routed domain answer s visited balancer c tag name route) [
        | inl (lost, inl nobody) ↦ absurd (nobody port offered)
        | inl (lost, inr empty) ↦ absurd (full empty)
        | inr (chosen, o, filled, e) ↦ (chosen, o, e)
      ]

  -- A host that has no dot once the domain is trimmed from its end makes the handler panic.
  pub domain_handler_panics :
      (domain : Bytes) (answer : Bytes → Option Bytes) (s : Server float)
      (visited : List (Manager float)) (balancer : Balancer) (c : Ctx)
      → Lacks b'.' (trim_suffix c.hostname domain)
      → domain_handler float domain answer s visited balancer c ≡ (panicked, balancer)
  unfolding domain_handler
  domain_handler_panics domain answer s visited balancer c h =
      rw (domain_handler, domain_route_panics c.hostname domain h) refl
