-- ===== src/Server/Manager/Release.antt =====
-- server/manager.go: what `Close` releases.
use ae_ro_go.Base.{ℕ, ◌≡◌, refl, ◌∙◌, true, false, List, [], ◌∷◌, if◌then◌else◌, arith}
use ae_ro_go.Base.Eq.{contains, ℕ_eq}
use ae_ro_go.Base.Dict.{Dict}
use ae_ro_go.Base.Chan.{close}
use ae_ro_go.Util.Ema.{Float}
use ae_ro_go.Server.World.{World, close_conn, close_listener, contains-remove, IsClosed}
use ae_ro_go.Server.Proxy.{Proxy, close_proxy}
use ae_ro_go.Server.Manager.{Manager}
use ae_ro_go.Server.Manager.Invariant.{Inv}
use ae_ro_go.Server.Manager.Closing.{close_proxies, close_manager, finished, Ended}

-- The listeners of the proxies of a map.
abbrev pub listeners : Dict Proxy → List ℕ
listeners [] = []
listeners ((k, p) ∷ rest) = p.listener ∷ listeners rest

-- A listener stays open exactly if it was open and is none of the proxies'.
close_proxies-open :
    (ps : Dict Proxy) (w : World) (l : ℕ)
    → contains (close_proxies ps w).open_listeners l
      ≡ (if contains (listeners ps) l then false else contains w.open_listeners l)
unfolding close_proxies close_proxy close_listener
close_proxies-open [] w l = unfold contains in refl
close_proxies-open ((k, p) ∷ rest) w l =
    close_proxies-open rest (close_proxy p w) l
    ∙ unfold contains in ground (arith, contains-remove p.listener l w.open_listeners)

close_proxies_conns :
    (ps : Dict Proxy) (w : World) → (close_proxies ps w).closed_conns ≡ w.closed_conns
unfolding close_proxies close_proxy close_listener
close_proxies_conns [] w = refl
close_proxies_conns ((k, p) ∷ rest) w = close_proxies_conns rest (close_proxy p w)

module _ (float : Float) where
  -- What is released when `Close` has run on `m` in the world `w`.
  pub data Released (m : Manager float) (w : World) : Ended float → Type 0 where
    released :
        (m' : Manager float) (w' : World)
        → Inv float m'
        → m'.closed ≡ true
        → m'.proxies ≡ []
        → IsClosed m.conn w'
        → ((l : ℕ)
            → contains w'.open_listeners l
              ≡ (if contains (listeners m.proxies) l then false else contains w.open_listeners l))
        → Released m w (finished m' w')

  abbrev pub shut : Manager float → Manager float
  shut m = record m {
    closed = true;
    send_chan = record m.send_chan { closed = true };
    recv_chan = record m.recv_chan { closed = true };
    pipe_conn_pool = record m.pipe_conn_pool { closed = true };
    proxies = [];
  }

  pub close_manager-finished :
      (m : Manager float) (w : World)
      → Inv float m
      → m.closed ≡ false
      → close_manager float m w ≡ finished (shut m) (close_proxies m.proxies (close_conn m.conn w))
  unfolding close_manager close
  close_manager-finished m w v open_yet = ground arith

  pub shut-Inv : (m : Manager float) → Inv float m → Inv float (shut m)
  shut-Inv m v = record {
    send_closed = refl;
    recv_closed = refl;
    pool_closed = refl;
    send_fits = v.send_fits;
    recv_fits = v.recv_fits;
    pool_fits = v.pool_fits;
    pool_cap = v.pool_cap;
    pool_low = v.pool_low;
    pool_high = v.pool_high;
  }

  -- On a manager that keeps the invariant and is not closed yet, `Close` runs to its end: it panics
  -- on no channel, marks the manager closed, keeps the invariant and so closes its channels, leaves
  -- no proxy, closes the connection and the listeners of all proxies, and closes no other listener.
  pub close_manager-Released :
      (m : Manager float) (w : World)
      → Inv float m
      → m.closed ≡ false
      → Released m w (close_manager float m w)
  unfolding close_conn
  close_manager-Released m w v open_yet = rw (close_manager-finished m w v open_yet) (
      released _ _ (shut-Inv m v) refl refl
        (rw (close_proxies_conns m.proxies (close_conn m.conn w)) (unfold contains in ground arith))
        (close_proxies-open m.proxies (close_conn m.conn w)))

  -- After a `Close` of a manager that keeps the invariant and was open, a second call changes
  -- nothing.
  pub close_manager_again :
      (m : Manager float) (w w2 : World)
      → Inv float m
      → m.closed ≡ false
      → (m' : Manager float) × (w' : World) × (close_manager float m w ≡ finished m' w')
        × (close_manager float m' w2 ≡ finished m' w2)
  unfolding close_manager
  close_manager_again m w w2 v open_yet = (_, _, close_manager-finished m w v open_yet, refl)
