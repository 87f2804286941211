-- ===== src/Server/Registry.antt =====
-- server/server.go: the server's managers. The map holds pointers to managers, which live on when
-- their entry is deleted: `heap` is the list of all managers ever made, and a pointer a place in it.
pub mod Ids
pub mod Streams
pub mod StreamLaws
use ae_ro_go.Base.{
  ℕ, zero, suc, ◌+◌, Bool, true, false, not, ◌||◌, List, [], ◌∷◌, ◌++◌, Bytes, bytes_eq, codes,
  Option, none, some, length, get_elem?, set, if◌then◌else◌, ◌==◌,
}
use ae_ro_go.Base.Int.{ℤ}
use ae_ro_go.Base.Eq.{contains, Bytes_eq}
use ae_ro_go.Base.Dict.{Dict, lookup, insert, delete}
use ae_ro_go.Util.Ema.{Float}
use ae_ro_go.Util.Legal.{check_legal}
use ae_ro_go.Util.Seq.{filter_slice}
use ae_ro_go.Message.{LoginRequest}
use ae_ro_go.Server.World.{World}
use ae_ro_go.Server.Manager.{Manager, new_manager, ping}
use ae_ro_go.Server.Manager.Closing.{close_manager, finished, crashed}

pub record ServerConfig : Type 0 where
  pub ip : Bytes
  pub port : Bytes
  pub auth_code : Bytes
  pub log_file : Bytes
  pub debug : Bool
  pub start_port : ℤ
  pub end_port : ℤ
  pub force_range : Bool
  pub api : Bytes
  pub mux_addr : Bytes
  pub domain : Bytes

-- `CheckLogin`: the text of the error, if there is one.
unfoldable pub check_login : ServerConfig → LoginRequest → Option Bytes
check_login config req =
    if not (bytes_eq config.auth_code req.auth_code)
    then some (codes "auth code error")
    else if not (check_legal req.tag)
    then some (codes "tag not match /a-zA-Z0-9_-/")
    else none

module _ (float : Float) where
  pub record Server : Type 0 where
    pub config : ServerConfig
    pub managers : Dict ℕ
    pub heap : List (Manager float)
    pub world : World

  -- `RegisterManager`, with the id that `genId` gave. The new goroutine runs the manager's steps.
  unfoldable pub register_manager : Server → ℕ → Bytes → ℤ → LoginRequest → Server
  register_manager s conn id now req = record s {
    managers = insert id (length s.heap) s.managers;
    heap = s.heap ++ new_manager float id conn now req ∷ [];
  }

  -- `server.managers[id]`, with the manager behind the pointer.
  unfoldable pub find_manager : Server → Bytes → Option (ℕ × Manager float)
  find_manager s id = elim (lookup id s.managers) [
    | none ↦ none
    | some p ↦ elim (get_elem? s.heap p) [ none ↦ none | some m ↦ some (p, m) ]
  ]

  -- What a method did to the manager behind a pointer.
  unfoldable pub put_manager : Server → ℕ → Manager float → Server
  put_manager s p m = record s { heap = set s.heap p m }

  -- A round of `awaitManagerDone`, at the manager that the channel gave; `false` is a panic.
  unfoldable pub manager_done : Server → ℕ → Manager float → Bool × Server
  manager_done s p m =
      let s' = record s { managers = delete m.client_id s.managers } in
      elim (close_manager float m s.world) [
        | finished m' w ↦ (true, record s' { heap = set s.heap p m'; world = w })
        | crashed m' w ↦ (false, record s' { heap = set s.heap p m'; world = w })
      ]

  -- `filterManagers`, over the managers in the order in which `range` visits them.
  unfoldable pub filter_managers : List (Manager float) → List Bytes → List (Manager float)
  filter_managers visited tags = filter_slice visited (λ m. length tags == 0 || contains tags m.tag)
