-- ===== src/Server/System/Served.antt =====
-- server/server.go: what holds of a stream, a manager and the map in every state that a new server
-- can reach.
use ae_ro_go.Base.{
  ℕ, ◌≡◌, ◌≢◌, refl, inl, inr, true, false, Bytes, none, some, get_elem?, elems-All,
}
use ae_ro_go.Base.Int.{ℤ}
use ae_ro_go.Base.Dict.{lookup, lookup-delete_self, lookup-delete_ne}
use ae_ro_go.Util.Ema.{Float}
use ae_ro_go.Netstat.Ports.{PortRange}
use ae_ro_go.Message.Frame.{Reader}
use ae_ro_go.Message.Codec.{Json}
use ae_ro_go.Server.World.{World}
use ae_ro_go.Server.Manager.{Manager}
use ae_ro_go.Server.Manager.Invariant.{Inv}
use ae_ro_go.Server.Registry.{ServerConfig, find_manager, manager_done}
use ae_ro_go.Server.Registry.Streams.{handle_stream}
use ae_ro_go.Server.Registry.StreamLaws.{Kept, handle_stream-Kept, find_manager-of}
use ae_ro_go.Server.System.{System, Phase, ended, buried, new_server, Reach}
use ae_ro_go.Server.System.Invariant.{Sound, new_server-Sound}
use ae_ro_go.Server.System.Reachable.{Reach-Sound, ended-closed, manager_done-closed}

module _ (float : Float) (config : ServerConfig) (range : PortRange) (w : World) where
  reached : {s : System float} → Reach float (new_server float config range w) s → Sound float s
  reached r = Reach-Sound float r (new_server-Sound float config range w)

  unburied-found :
      {s : System float} {phase : Phase} (p : ℕ) (m : Manager float)
      → Sound float s
      → get_elem? s.server.heap p ≡ some m
      → get_elem? s.phases p ≡ some phase
      → phase ≢ buried
      → find_manager float s.server m.client_id ≡ some (p, m)
  unburied-found {s} p m v at in_phase n = elim (v.listed p m at) [
    | inl b ↦ absurd (n cc)
    | inr l ↦ find_manager-of float s.server m.client_id p m l at
  ]

  open-found :
      {s : System float} (p : ℕ) (m : Manager float)
      → Sound float s
      → get_elem? s.server.heap p ≡ some m
      → m.closed ≡ false
      → find_manager float s.server m.client_id ≡ some (p, m)
  open-found p m v at open_yet = elim (v.over p m at) [
    | inl r ↦ unburied-found p m v at r (λ e. cc)
    | inr t ↦ cc
  ]

  -- In every state that a new server can reach, by streams that come in and rounds of the managers'
  -- goroutines in any order, `HandleStream` loses no stream: once it is done with a new one, the
  -- stream is closed, or it is the control connection of a manager of the map, or it lies in the pool
  -- of one.
  pub stream_kept :
      {s : System float} (json : Json) (c : ℕ) (id : Bytes) (now : ℤ) (reader : Reader)
      → Reach float (new_server float config range w) s
      → Kept float (handle_stream float json s.server c id now reader) c
  stream_kept {s} json c id now reader r =
      handle_stream-Kept float json s.server c id now reader
        (elems-All (Inv float) s.server.heap (reached r).kept)

  -- In every state that a new server can reach, a manager that is open is the one that the map has
  -- under its id, and whatever the map has under an id is a manager with that id.
  pub managers_listed :
      {s : System float}
      → Reach float (new_server float config range w) s
      → ((p : ℕ) (m : Manager float)
          → get_elem? s.server.heap p ≡ some m
          → m.closed ≡ false
          → find_manager float s.server m.client_id ≡ some (p, m))
        × ((id : Bytes) (p : ℕ)
            → lookup id s.server.managers ≡ some p
            → (m : Manager float) × (find_manager float s.server id ≡ some (p, m))
              × (m.client_id ≡ id))
  managers_listed {s} r =
      let v = reached r in
      (
        (λ p m at open_yet. open-found p m v at open_yet),
        (λ id p e.
            let (m, at, i) = v.owned id p e in (m, find_manager-of float s.server id p m e at, i)),
      )

  -- In every state that a new server can reach, `awaitManagerDone` of a manager whose `Run` has ended
  -- does not panic, changes neither a manager nor the system, and takes from the map the entry of that
  -- manager and no other.
  pub manager_done_only :
      {s : System float} (p : ℕ) (m : Manager float)
      → Reach float (new_server float config range w) s
      → get_elem? s.server.heap p ≡ some m
      → get_elem? s.phases p ≡ some ended
      → let t = (manager_done float s.server p m).1 in
        ((manager_done float s.server p m).0 ≡ true)
        × (t.heap ≡ s.server.heap)
        × (t.world ≡ s.server.world)
        × (find_manager float s.server m.client_id ≡ some (p, m))
        × (lookup m.client_id t.managers ≡ none)
        × ((id : Bytes) → m.client_id ≢ id → lookup id t.managers ≡ lookup id s.server.managers)
  manager_done_only {s} p m r at gone =
      let v = reached r in
      rw (manager_done-closed float s.server p m at (ended-closed float s p m v at gone)) (
        refl,
        refl,
        refl,
        unburied-found p m v at gone (λ e. cc),
        lookup-delete_self m.client_id s.server.managers,
        (λ id n. lookup-delete_ne m.client_id id s.server.managers n),
      )
