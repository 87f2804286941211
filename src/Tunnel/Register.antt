-- ===== src/Tunnel/Register.antt =====
-- client/agent.go and server/manager.go: a proxy from the agent's request to its start, over the wire.
use ae_ro_go.Base.{
  ◌≡◌, ◌≢◌, refl, sym, ap, ◌∙◌, ◌⊎◌, inl, inr, true, ◌++◌, Bytes, bytes_eq, bytes_eq_iff,
  bytes_eq_refl, codes, some, arith,
}
use mathlib.Core.Path.{subst}
use ae_ro_go.Base.Chan.{done}
use ae_ro_go.Base.Eq.{contains, ℕ_eq}
use ae_ro_go.Base.Dict.{Dict, lookup, insert, lookup-insert_self, lookup-insert_ne}
use ae_ro_go.Util.Ema.{Float}
use ae_ro_go.Message.{Message, ProxyRequest, ProxyResponse, proxy_request, proxy_response, ok}
use ae_ro_go.Message.Frame.{Reader, Writer}
use ae_ro_go.Message.Codec.{Json, get}
use ae_ro_go.Message.Delivery.{Delivered, get-Delivered}
use ae_ro_go.Server.Manager.Proxies.{Env, list_proxies}
use ae_ro_go.Server.Manager.Proxies
use ae_ro_go.Server.Manager.ProxyLaws.{Serves, answered, register_proxy-Registered}
use ae_ro_go.Server.Manager.Running.{Site}
use ae_ro_go.Server.Manager.Running
use ae_ro_go.Client.{Proxy}
use ae_ro_go.Client.Agent.{Agent, Clock, register_proxy, start_proxy, handle_message}

-- What `RegisterProxy` of the agent asks for.
abbrev pub request_of : Proxy → ProxyRequest
request_of p = record {
  name = p.name;
  typ = p.typ;
  port = p.remote_port;
  target = p.local_addr;
  enable = true;
}

abbrev pub started : Proxy → Proxy
started p = record p { started = true }

started_after :
    (port : Bytes) (p : Proxy) (proxies : Dict Proxy)
    → start_proxy (answered port p.name) (insert p.name p proxies)
      ≡ insert p.name (started p) (insert p.name p proxies)
unfolding start_proxy
started_after port p proxies =
    rw (bytes_eq_refl (codes "ok"), lookup-insert_self p.name p proxies) refl

not_started :
    (v : ProxyResponse) (proxies : Dict Proxy) (why : Bytes)
    → v.result ≡ codes "register proxy error:" ++ why
    → start_proxy v proxies ≡ proxies
unfolding start_proxy bytes_eq
not_started v proxies why bad = rw bad refl

module _ (float : Float) where
  in_run :
      (env : Env) (site : Site float) (req : ProxyRequest)
      → req.enable ≡ true
      → let (resp, m, range, w) =
          Proxies.register_proxy float env site.mgr req site.range site.world in
        Running.handle_message float env site (proxy_request req) ≡ (
          some (proxy_response resp),
          record { mgr = list_proxies float m; range = range; world = w },
        )
  unfolding Running.handle_message
  in_run env site req on = rw on refl

  -- The server serves the proxy and the agent has started it; no other proxy has changed on either
  -- side.
  abbrev pub Up : Site float → Site float → Agent → Agent → Proxy → Type 0
  Up site site' a a' p =
      Serves site'.mgr.proxies site'.world p.name p.local_addr
      × (lookup p.name a'.proxies ≡ some (started p))
      × ((n : Bytes)
          → p.name ≢ n
          → (lookup n site'.mgr.proxies ≡ lookup n site.mgr.proxies)
            × (lookup n a'.proxies ≡ lookup n a.proxies))

  -- The server is as before, but for its port range, and the agent knows the proxy, not started.
  abbrev pub Down : Site float → Site float → Agent → Agent → Proxy → Type 0
  Down site site' a a' p =
      (site'.mgr.proxies ≡ site.mgr.proxies)
      × (site'.world ≡ site.world)
      × (a'.proxies ≡ insert p.name p a.proxies)

  agree :
      (env : Env) (site : Site float) (p : Proxy) (a b : Agent)
      → let (resp, m, range, w) =
          Proxies.register_proxy float env site.mgr (request_of p) site.range site.world in
        let site' : Site float = record { mgr = list_proxies float m; range = range; world = w } in
        let a' : Agent = record b { proxies = start_proxy resp (insert p.name p a.proxies) } in
        Up site site' a a' p ⊎ Down site site' a a' p
  unfolding list_proxies contains
  agree env site p a b =
      elim (register_proxy-Registered float env site.mgr (request_of p) site.range site.world) [
        | inl (why, bad, same, quiet) ↦
            inr (ap (λ m. m.proxies) same, quiet, not_started _ (insert p.name p a.proxies) why bad)
        | inr (sp, fine, remote, stands, opened) ↦ inl (
          (
            sp,
            stands p.name ∙ rw (bytes_eq_refl p.name) refl,
            remote,
            opened sp.listener ∙ ground (arith, sp.listener),
          ),
          rw (fine, started_after sp.port p a.proxies) (lookup-insert_self p.name _ _),
          (λ n ne. (
            stands n ∙ ground (arith, bytes_eq_iff p.name n),
            rw (fine, started_after sp.port p a.proxies)
                (lookup-insert_ne p.name n _ _ ne ∙ lookup-insert_ne p.name n _ _ ne),
          )),
        )
      ]

  -- The agent's request is delivered to the manager, and the manager's answer to the agent. Then each
  -- side reads what the other has written, and both end alike: the server serves the proxy at its
  -- target on an open listener and the agent has started it; or the server has changed neither its
  -- proxies nor a listener and the agent has not started the proxy.
  pub register_proxy-handle_message :
      (json : Json) (env : Env) (site site' : Site float) (p : Proxy) (a : Agent) (now : Clock)
      (out out' back back' : Writer) (request answer : Reader) (rest more : Bytes) (msg : Message)
      → Delivered json (proxy_request (request_of p)) out out' request rest
      → Running.handle_message float env site (proxy_request (request_of p)) ≡ (some msg, site')
      → Delivered json msg back back' answer more
      → (asked a' : Agent) × (left left' : Reader) × (register_proxy json p a out
          ≡ ok (asked, out'))
        × (get json request ≡ ok (proxy_request (request_of p), left))
        × (get json answer ≡ ok (msg, left'))
        × (handle_message now asked msg ≡ done (true, a'))
        × (Up site site' a a' p ⊎ Down site site' a a' p)
  unfolding register_proxy handle_message
  register_proxy-handle_message json env site site' p a now out out' back back' request answer rest
        more msg dr handled da =
      let ran = sym (in_run env site (request_of p) refl) ∙ handled in
      let (left, g, behind) = get-Delivered dr in
      let (left', g', behind') = get-Delivered da in
      let asked : Agent = record a { proxies = insert p.name p a.proxies } in
      let resp =
        (Proxies.register_proxy float env site.mgr (request_of p) site.range site.world).0 in
      let answered : proxy_response resp ≡ msg = cc in
      let a' : Agent = record asked { proxies = start_proxy resp asked.proxies } in
      (
        asked,
        a',
        left,
        left',
        rw (register_proxy, dr.sent) refl,
        g,
        g',
        rw (← answered) refl,
        subst (λ s. Up site s a a' p ⊎ Down site s a a' p) (ap (λ r. r.1) ran)
            (agree env site p a asked),
      )
