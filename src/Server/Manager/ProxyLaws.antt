-- ===== src/Server/Manager/ProxyLaws.antt =====
-- server/manager.go: what `RegisterProxy` and `RemoveProxy` do to the map of proxies and to the listeners.
use ae_ro_go.Base.{
  ℕ, ◌≡◌, refl, ap, ◌∙◌, ◌⊎◌, inl, inr, false, ◌||◌, ◌∷◌, ◌++◌, Bytes, bytes_eq, bytes_eq_iff,
  codes, none, some, ◌==◌, if◌then◌else◌, Option-cases, arith,
}
use ae_ro_go.Base.Decimal.{itoa}
use ae_ro_go.Base.Eq.{contains, ℕ_eq}
use ae_ro_go.Base.Dict.{Dict, lookup, lookup-insert, lookup-delete}
use ae_ro_go.Util.Ema.{Float}
use ae_ro_go.Netstat.Ports.{PortRange, find_available_port}
use ae_ro_go.Message.{ProxyRequest, ProxyResponse}
use ae_ro_go.Server.World.{World, IsOpen, listen, close_listener, contains-remove}
use ae_ro_go.Server.Proxy.{Proxy, Answer, refused, listening, actual_port, new_proxy, close_proxy}
use ae_ro_go.Server.Manager.{Manager}
use ae_ro_go.Server.Manager.Proxies.{Env, requested_port, register_proxy, remove_proxy}

-- How `NewProxy` ends.
new_proxy_cases :
    (name port remote : Bytes) (answer : Bytes → Answer) (w : World)
    → ((why : Bytes) × (new_proxy name port remote answer w ≡ inl why))
      ⊎ ((p : Proxy) × (w' : World) × (new_proxy name port remote answer w ≡ inr (p, w'))
          × (p.name ≡ name)
          × (p.remote ≡ remote)
          × ((l : ℕ)
              → contains w'.open_listeners l ≡ (p.listener == l || contains w.open_listeners l)))
unfolding new_proxy listen contains
new_proxy_cases name port remote answer w = go (answer (b':' ∷ port)) refl
  where
    go :
        (a : Answer)
        → answer (b':' ∷ port) ≡ a
        → ((why : Bytes) × (new_proxy name port remote answer w ≡ inl why))
          ⊎ ((p : Proxy) × (w' : World) × (new_proxy name port remote answer w ≡ inr (p, w'))
              × (p.name ≡ name)
              × (p.remote ≡ remote)
              × ((l : ℕ)
                  → contains w'.open_listeners l
                    ≡ (p.listener == l || contains w.open_listeners l)))
    go (refused why) e = inl (why, rw (e, new_proxy) refl)
    go (listening addr) e = inr (
      record {
        name = name;
        port = actual_port addr port;
        remote = remote;
        listener = w.next_listener;
      },
      (listen w).1,
      rw (e, new_proxy) refl,
      refl,
      refl,
      (λ l. refl),
    )

abbrev pub answered : Bytes → Bytes → ProxyResponse
answered port name = record { name = name; port = port; enable = false; result = codes "ok" }

-- The map has a proxy of that name, to that target, and its listener is open.
abbrev pub Serves : Dict Proxy → World → Bytes → Bytes → Type 0
Serves proxies w name target =
    (p : Proxy) × (lookup name proxies ≡ some p) × (p.remote ≡ target) × IsOpen p.listener w

module _ (float : Float) where
  -- The two ways in which `RegisterProxy` ends.
  abbrev pub Registered :
      Manager float
      → World
      → ProxyRequest
      → ProxyResponse × Manager float × PortRange × World
      → Type 0
  Registered m w req (resp, m', range', w') =
      ((why : Bytes) × (resp.result ≡ codes "register proxy error:" ++ why) × (m' ≡ m) × (w' ≡ w))
      ⊎ ((p : Proxy) × (resp ≡ answered p.port req.name)
          × (p.remote ≡ req.target)
          × ((n : Bytes)
              → lookup n m'.proxies ≡ (if bytes_eq req.name n then some p else lookup n m.proxies))
          × ((l : ℕ)
              → contains w'.open_listeners l ≡ (p.listener == l || contains w.open_listeners l)))

  -- `RegisterProxy` either reports the error and changes neither the map nor a listener, or answers
  -- with the port of a new proxy, which then stands in the map under its name, whatever stood there.
  -- It opens the proxy's listener and closes none, also not that of the proxy that it replaces.
  pub register_proxy-Registered :
      (env : Env) (m : Manager float) (req : ProxyRequest) (range : PortRange) (w : World)
      → Registered m w req (register_proxy float env m req range w)
  unfolding register_proxy
  register_proxy-Registered env m req range w =
      elim (new_proxy_cases req.name
        (itoa (find_available_port env.probe (requested_port req.port) range).0) req.target
        env.answer w) [
          | inl (why, e) ↦ rw (e, register_proxy) (inl (why, refl, refl, refl))
          | inr (p, w', e, named, remote, opened) ↦
              rw (e, register_proxy)
                (inr (
                  p,
                  ap (answered p.port) named,
                  remote,
                  (λ n.
                      lookup-insert p.name n p m.proxies
                      ∙ ap (λ k. if bytes_eq k n then some p else lookup n m.proxies) named),
                  opened,
                ))
        ]

  -- `RemoveProxy` leaves no proxy of that name, and all others; it closes the listener of the proxy
  -- that it found, if there was one, and no other.
  pub remove_proxy_lem :
      (m : Manager float) (req : ProxyRequest) (w : World)
      → let (m', w') = remove_proxy float m req w in
        ((n : Bytes)
          → lookup n m'.proxies ≡ (if bytes_eq req.name n then none else lookup n m.proxies))
        × ((l : ℕ)
            → contains w'.open_listeners l ≡ elim (lookup req.name m.proxies) [
              | none ↦ contains w.open_listeners l
              | some p ↦ if p.listener == l then false else contains w.open_listeners l
            ])
  unfolding remove_proxy
  remove_proxy_lem m req w = elim (Option-cases (lookup req.name m.proxies)) [
    | inl e ↦ rw (e, remove_proxy) ((λ n. ground (arith, bytes_eq_iff req.name n)), (λ l. refl))
    | inr (p, e) ↦
        rw (e, remove_proxy)
          (
            (λ n. lookup-delete req.name n m.proxies),
            (λ l.
                unfold close_proxy in
                unfold close_listener in contains-remove p.listener l w.open_listeners),
          )
  ]
