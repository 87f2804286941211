-- ===== src/Server/Mux.antt =====
-- server/mux.go: which proxy's port a request of the http mux is sent to.
pub mod Balance
pub mod Select
pub mod Handlers
pub mod Offers
pub mod Routed
use ae_ro_go.Base.{
  ℕ, zero, suc, ◌+◌, ◌-◌, ◌%◌, Bool, true, false, List, [], ◌∷◌, ◌++◌, Bytes, bytes_eq, codes,
  Option, none, some, length, take, drop, get_or, get_elem?, ltb, leb, if◌then◌else◌,
}
use ae_ro_go.Base.Dict.{Dict, lookup, insert}
use ae_ro_go.Util.Ema.{Float}
use ae_ro_go.Util.Text.{split_x}
use ae_ro_go.Util.Seq.{map_filtered}
use ae_ro_go.Server.Proxy.{Proxy}
use ae_ro_go.Server.Manager.{Manager}
use ae_ro_go.Server.Registry.{Server, find_manager, filter_managers}

pub record RoundRobin : Type 0 where
  pub current : ℕ
  pub pool : List Bytes

-- `tagBalancer`
abbrev pub Balancer : Type 0
Balancer = Dict RoundRobin

-- `GetRobin`: what the map holds, or a new value that is put into no map.
unfoldable pub get_robin : Balancer → Bytes → Option RoundRobin
get_robin balancer tag = lookup tag balancer

abbrev pub new_robin : RoundRobin
new_robin = record { current = 0; pool = [] }

-- `update`: the address that is picked, and the new state.
unfoldable pub update : RoundRobin → List Bytes → Bytes × RoundRobin
update r [] = ([], record r { pool = [] })
update r (p ∷ ps) =
    let n = length (p ∷ ps) in
    let current = if leb n r.current then r.current % n else r.current in
    (get_or (p ∷ ps) current [], record { current = current + 1; pool = p ∷ ps })

-- `GetRobin(tag).update(avail)`: what stands in the map is changed in place, a new value is lost.
unfoldable pub pick : Balancer → Bytes → List Bytes → Bytes × Balancer
pick balancer tag avail = elim (get_robin balancer tag) [
  | some r ↦ let (selected, r') = update r avail in (selected, insert tag r' balancer)
  | none ↦ let (selected, r') = update new_robin avail in (selected, balancer)
]

-- `strings.HasSuffix(tag, "@")`, and the tag without it.
unfoldable pub trim_at : Bytes → Option Bytes
trim_at [] = none
trim_at (c ∷ []) = if bytes_eq (c ∷ []) (codes "@") then some [] else none
trim_at (c ∷ d ∷ s) = elim (trim_at (d ∷ s)) [ none ↦ none | some t ↦ some (c ∷ t) ]

module _ (float : Float) where
  -- The port of a manager's proxy of that name.
  abbrev pub port_of : Bytes → Manager float → Option Bytes
  port_of name m = elim (lookup name m.proxies) [ none ↦ none | some proxy ↦ some proxy.port ]

  -- `selectPort`; the empty text if there is none. `visited` are the managers of the server in the
  -- order in which `range` visits them.
  unfoldable pub select_port :
      Server float → List (Manager float) → Balancer → Bytes → Bytes → Bytes × Balancer
  select_port s visited balancer tag name = elim (trim_at tag) [
    | some id ↦ elim (find_manager float s id) [
      | none ↦ ([], balancer)
      | some (p, m) ↦ elim (port_of name m) [ none ↦ ([], balancer) | some port ↦ (port, balancer) ]
    ]
    | none ↦
        let avail = map_filtered (filter_managers float visited (tag ∷ [])) (port_of name) in
        elim avail [ [] ↦ ([], balancer) | p ∷ ps ↦ pick balancer tag (p ∷ ps) ]
  ]

-- `strings.TrimSuffix`
unfoldable pub trim_suffix : Bytes → Bytes → Bytes
trim_suffix s suffix =
    let n = length s - length suffix in if bytes_eq (drop n s) suffix then take n s else s

-- `tagname[0]` and `tagname[1]`; `none` is a panic, since an index is out of range.
unfoldable pub first_two : List Bytes → Option (Bytes × Bytes)
first_two [] = none
first_two (tag ∷ []) = none
first_two (tag ∷ name ∷ rest) = some (tag, name)

-- The tag and the name by the host, where the server has a domain.
unfoldable pub domain_route : Bytes → Bytes → Option (Bytes × Bytes)
domain_route hostname domain = first_two (split_x (trim_suffix hostname domain) (codes "."))
