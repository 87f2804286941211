-- ===== src/Server/Manager/Proxies.antt =====
-- server/manager.go: `RegisterProxy`, `RemoveProxy` and `ListProxies`.
use ae_ro_go.Base.{
  Bool, List, [], ◌∷◌, ◌++◌, Bytes, codes, none, some, inl, inr, length, map, replicate,
}
use ae_ro_go.Base.Int.{ℤ, pos}
use ae_ro_go.Base.Decimal.{atoi, itoa}
use ae_ro_go.Base.Dict.{Dict, lookup, insert, delete, values}
use ae_ro_go.Util.Ema.{Float}
use ae_ro_go.Util.Text.{join_x}
use ae_ro_go.Netstat.Ports.{PortRange, find_available_port}
use ae_ro_go.Message.{ProxyRequest, ProxyResponse}
use ae_ro_go.Server.World.{World}
use ae_ro_go.Server.Proxy.{Proxy, Answer, new_proxy, close_proxy}
use ae_ro_go.Server.Manager.{Manager}

-- The system at the moment of a call: which ports can be listened on, what `net.Listen` gives, and
-- the clock in microseconds.
pub record Env : Type 0 where
  pub probe : ℤ → Bool
  pub answer : Bytes → Answer
  pub now : ℤ

-- `port, err := strconv.Atoi(req.Port)`, with 0 for an error.
unfoldable pub requested_port : Bytes → ℤ
requested_port s = elim (atoi s) [ none ↦ pos 0 | some n ↦ n ]

-- `fmt.Sprintf("%s:%s", proxy.Name, proxy.Port)`
abbrev pub listed : Proxy → Bytes
listed p = p.name ++ (b':' ∷ p.port)

module _ (float : Float) where
  unfoldable pub register_proxy :
      Env
      → Manager float
      → ProxyRequest
      → PortRange
      → World
      → ProxyResponse × Manager float × PortRange × World
  register_proxy env m req range w =
      let (port, range') = find_available_port env.probe (requested_port req.port) range in
      elim (new_proxy req.name (itoa port) req.target env.answer w) [
        | inl why ↦ (
          record {
            name = [];
            port = [];
            enable = Bool.false;
            result = codes "register proxy error:" ++ why;
          },
          m,
          range',
          w,
        )
        | inr (proxy, w') ↦ (
          record { name = proxy.name; port = proxy.port; enable = Bool.false; result = codes "ok" },
          record m { proxies = insert proxy.name proxy m.proxies },
          range',
          w',
        )
      ]

  unfoldable pub remove_proxy : Manager float → ProxyRequest → World → Manager float × World
  remove_proxy m req w = elim (lookup req.name m.proxies) [
    | none ↦ (m, w)
    | some proxy ↦ (record m { proxies = delete req.name m.proxies }, close_proxy proxy w)
  ]

  -- `str := make([]string, len(manager.Proxies))`, and then an `append` for each proxy.
  unfoldable pub proxy_strings : Dict Proxy → List Bytes
  proxy_strings proxies = replicate (length proxies) [] ++ map listed (values proxies)

  unfoldable pub list_proxies : Manager float → Manager float
  unfolding proxy_strings
  list_proxies m = record m { proxies_str = join_x (proxy_strings m.proxies) (b',' ∷ []) }
