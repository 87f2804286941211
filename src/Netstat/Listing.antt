-- ===== src/Netstat/Listing.antt =====
-- netstat/netstat.go: the lists of the ports in use.
use ae_ro_go.Base.{
  ℕ, ◌≡◌, refl, ◌∙◌, List, [], ◌∷◌, ◌++◌, append-nil, append_assoc, Bytes, Option, none, some,
  Option-cases, inl, inr,
}
use ae_ro_go.Base.Eq.{contains, Distinct, ℕ_eq}
use ae_ro_go.Util.Seq.{de_duplicate, de_duplicate_lem, map_indexed}

pub record SockAddr : Type 0 where
  pub ip : Bytes
  pub port : ℕ

-- `process` is the id and the name, where the process is known.
pub record SockTabEntry : Type 0 where
  pub ino : Bytes
  pub local_addr : SockAddr
  pub remote_addr : SockAddr
  pub state : ℕ
  pub uid : ℕ
  pub process : Option (ℕ × Bytes)

-- `ToPorts`
unfoldable pub to_ports : List SockTabEntry → List ℕ
to_ports s = de_duplicate (map_indexed s (λ i e. e.local_addr.port))

pub data Mode : Type 0 where
  tcp tcp6 udp udp6 : Mode

-- The listings after the first one, up to one that fails.
add_ports : (Mode → Option (List ℕ)) → List Mode → List ℕ → List ℕ
add_ports os_ports [] ports = de_duplicate ports
add_ports os_ports (mode ∷ modes) ports = elim (os_ports mode) [
  | none ↦ de_duplicate ports
  | some port_set ↦ add_ports os_ports modes (ports ++ port_set)
]

-- `GetAllPorts`, where `os_ports` is what `osPorts` reads from the system's tables at each of the four
-- calls, `none` for an error.
unfoldable pub get_all_ports : (Mode → Option (List ℕ)) → List ℕ
unfolding add_ports
get_all_ports os_ports = elim (os_ports tcp) [
  | none ↦ []
  | some port_set ↦ add_ports os_ports (tcp6 ∷ udp ∷ udp6 ∷ []) ([] ++ port_set)
]

-- All ports of the listings in front of the first that fails.
abbrev pub readable : (Mode → Option (List ℕ)) → List Mode → List ℕ
readable os_ports [] = []
readable os_ports (mode ∷ modes) = elim (os_ports mode) [
  | none ↦ []
  | some port_set ↦ port_set ++ readable os_ports modes
]

add_ports-readable :
    (os_ports : Mode → Option (List ℕ)) (modes : List Mode) (ports : List ℕ)
    → add_ports os_ports modes ports ≡ de_duplicate (ports ++ readable os_ports modes)
unfolding add_ports
add_ports-readable os_ports [] ports = rw append-nil refl
add_ports-readable os_ports (mode ∷ modes) ports = elim (Option-cases (os_ports mode)) [
  | inl e ↦ rw (e, add_ports, readable, append-nil) refl
  | inr (port_set, e) ↦
      rw (e, add_ports, readable)
        (add_ports-readable os_ports modes (ports ++ port_set)
          ∙ rw (append_assoc ports port_set (readable os_ports modes)) refl)
]

pub get_all_ports-readable :
    (os_ports : Mode → Option (List ℕ))
    → get_all_ports os_ports ≡ de_duplicate (readable os_ports (tcp ∷ tcp6 ∷ udp ∷ udp6 ∷ []))
unfolding get_all_ports de_duplicate
get_all_ports-readable os_ports = elim (Option-cases (os_ports tcp)) [
  | inl e ↦ rw (e, get_all_ports, readable) refl
  | inr (port_set, e) ↦
      rw (e, get_all_ports, readable)
        (add_ports-readable os_ports (tcp6 ∷ udp ∷ udp6 ∷ []) port_set)
]

-- `GetAllPorts` returns each port once, and exactly the ports of the listings in front of the first
-- one that fails.
pub get_all_ports_lem :
    (os_ports : Mode → Option (List ℕ))
    → Distinct (get_all_ports os_ports)
      × ((p : ℕ)
          → contains (get_all_ports os_ports) p
            ≡ contains (readable os_ports (tcp ∷ tcp6 ∷ udp ∷ udp6 ∷ [])) p)
get_all_ports_lem os_ports =
    let (distinct, same, _) = de_duplicate_lem (readable os_ports (tcp ∷ tcp6 ∷ udp ∷ udp6 ∷ [])) in
    rw (get_all_ports-readable os_ports) (distinct, same)
