-- ===== src/Server/Runs/Web.antt =====
-- Runs of the http mux at concrete inputs.
use ae_ro_go.Base.{
  zero, suc, ◌≡◌, ◌≢◌, ◌⊎◌, refl, ap, ◌∙◌, [], ◌∷◌, Bytes, bytes_eq, codes, Option, none, some,
}
use ae_ro_go.Base.Dict.{lookup}
use ae_ro_go.Util.Whole.{whole}
use ae_ro_go.Server.Manager.{Manager, new_manager}
use ae_ro_go.Server.Registry.{Server}
use ae_ro_go.Server.Mux.{trim_at, port_of, domain_route}
use ae_ro_go.Server.Mux.Handlers.{Ctx, Handler, domain_handler, mux_server, panicked}
use ae_ro_go.Server.Mux.Offers.{Offered}
use ae_ro_go.Server.Mux.Routed.{
  RoutesTo, Routed, sent_on, mux_server-Routed, domain_handler-sent_on,
}
use ae_ro_go.Server.Runs.{config, quiet, serving}

abbrev server : Server whole
server = record {
  config = config;
  managers = (codes "abcdefgh", 0) ∷ [];
  heap = serving ∷ [];
  world = quiet;
}

abbrev ctx : Ctx
ctx = record {
  param_tag = codes "t";
  param_name = codes "web";
  original_url = codes "/t/web/index.html";
  protocol = codes "http";
  hostname = codes "t.web.example.org";
  ip = codes "10.0.0.7";
}

answers : Bytes → Option Bytes
answers url = none

abbrev nowhere : Bytes
nowhere = []

mux_server-Routed_example :
    (handler : Handler whole) × (mux_server whole (codes ":80") [] ≡ some handler)
    × (((tag name target : Bytes) × RoutesTo whole [] ctx tag name target
          × Routed whole answers server
              (serving ∷ [])
              ctx
              tag
              name
              target
              (handler answers server (serving ∷ []) [] ctx).0)
        ⊎ ((nowhere ≢ [])
            × (domain_route ctx.hostname [] ≡ none)
            × ((handler answers server (serving ∷ []) [] ctx).0 ≡ panicked)))
mux_server-Routed_example =
    mux_server-Routed whole (codes ":80") [] answers server (serving ∷ []) [] ctx (λ h. cc)

offered : Offered whole server (serving ∷ []) (codes "t") (codes "web") (codes "8001")
unfolding trim_at lookup bytes_eq new_manager
offered = (0, serving, refl, refl, refl)

port_empty : (m : Manager whole) → serving ≡ m → ¬ (port_of whole (codes "web") m ≡ some [])
unfolding lookup bytes_eq
port_empty m e h =
    let same : port_of whole (codes "web") serving ≡ some [] =
      ap (port_of whole (codes "web")) e ∙ h in
    cc

none_empty : ¬ Offered whole server (serving ∷ []) (codes "t") (codes "web") []
unfolding trim_at bytes_eq
none_empty (zero, m, at, same, has) = port_empty m (cc) has
none_empty (suc i, m, at, same, has) = cc

domain_handler-sent_on_example :
    (chosen : Bytes) × Offered whole server (serving ∷ []) (codes "t") (codes "web") chosen
    × ((domain_handler whole (codes "example.org") answers server (serving ∷ []) [] ctx).0
        ≡ sent_on answers ctx chosen ctx.original_url)
domain_handler-sent_on_example =
    domain_handler-sent_on whole (codes "example.org") answers server (serving ∷ []) [] ctx
      (codes "t") (codes "web") (codes "8001") ((λ h. cc), tt)
      ((λ h. cc), ((λ h. cc), ((λ h. cc), tt))) refl offered none_empty
