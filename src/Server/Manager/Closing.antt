-- ===== src/Server/Manager/Closing.antt =====
-- server/manager.go: `Close`.
use ae_ro_go.Base.{true, [], ◌∷◌, if◌then◌else◌}
use ae_ro_go.Base.Dict.{Dict}
use ae_ro_go.Base.Chan.{done, close}
use ae_ro_go.Util.Ema.{Float}
use ae_ro_go.Server.World.{World, close_conn}
use ae_ro_go.Server.Proxy.{Proxy, close_proxy}
use ae_ro_go.Server.Manager.{Manager}

-- The loop over the map: each proxy is closed, and its entry deleted.
unfoldable pub close_proxies : Dict Proxy → World → World
close_proxies [] w = w
close_proxies ((k, p) ∷ rest) w = close_proxies rest (close_proxy p w)

module _ (float : Float) where
  -- How a call of `Close` ends. A panic leaves what was done before it.
  pub data Ended : Type 0 where
    finished : Manager float → World → Ended
    crashed : Manager float → World → Ended

  drop_proxies : Manager float → World → Ended
  drop_proxies m w = finished (record m { proxies = [] }) (close_proxies m.proxies w)

  close_pool : Manager float → World → Ended
  unfolding drop_proxies
  close_pool m w = elim (close m.pipe_conn_pool) [
    | done c ↦ drop_proxies (record m { pipe_conn_pool = c }) w
    | _ ↦ crashed m w
  ]

  close_recv : Manager float → World → Ended
  unfolding close_pool
  close_recv m w = elim (close m.recv_chan) [
    | done c ↦ close_pool (record m { recv_chan = c }) w
    | _ ↦ crashed m w
  ]

  close_send : Manager float → World → Ended
  unfolding close_recv
  close_send m w = elim (close m.send_chan) [
    | done c ↦ close_recv (record m { send_chan = c }) w
    | _ ↦ crashed m w
  ]

  -- What follows the test of `closed`.
  unfoldable pub shut_down : Manager float → World → Ended
  unfolding close_send
  shut_down m w = close_send (record m { closed = true }) (close_conn m.conn w)

  unfoldable pub close_manager : Manager float → World → Ended
  unfolding shut_down
  close_manager m w = if m.closed then finished m w else shut_down m w
