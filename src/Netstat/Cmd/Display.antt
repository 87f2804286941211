-- ===== src/Netstat/Cmd/Display.antt =====
-- netstat/cmd/main.go and netstat/: `lookup`, `displaySockInfo`, and the texts of states and processes.
use ae_ro_go.Base.{
  ℕ, ◌-◌, Bool, List, [], ◌∷◌, ◌++◌, Bytes, codes, Option, none, some, length, take, replicate,
  get_elem?, ltb, if◌then◌else◌,
}
use ae_ro_go.Base.Decimal.{utoa}
use ae_ro_go.Util.Text.{join}
use ae_ro_go.Netstat.Listing.{SockAddr, SockTabEntry, to_ports}

-- `skStates` of Linux.
abbrev pub sk_states : List Bytes
sk_states =
    codes "UNKNOWN"
    ∷ codes "ESTABLISHED"
    ∷ codes "SYN_SENT"
    ∷ codes "SYN_RECV"
    ∷ codes "FIN_WAIT1"
    ∷ codes "FIN_WAIT2"
    ∷ codes "TIME_WAIT"
    ∷ []
    ∷ codes "CLOSE_WAIT"
    ∷ codes "LAST_ACK"
    ∷ codes "LISTEN"
    ∷ codes "CLOSING"
    ∷ []

-- `String` of a state; `none` is a panic, which `fmt` turns into a text.
unfoldable pub state_string : ℕ → Option Bytes
state_string s = get_elem? sk_states s

-- `String` of a process.
unfoldable pub process_string : ℕ × Bytes → Bytes
process_string (pid, name) = utoa pid ++ (b'/' ∷ name)

-- What the system and the libraries answer: the text of an IP, the names of an address, if a lookup
-- has no error, the text of `fmt` for a state whose `String` panics, and the effective user id.
pub record Host : Type 0 where
  pub ip_string : Bytes → Bytes
  pub names_of : Bytes → Option (List Bytes)
  pub bad_state : ℕ → Bytes
  pub euid : ℕ

-- `lookup`
unfoldable pub lookup_addr : Host → Bool → SockAddr → Bytes
lookup_addr host resolve skaddr =
    let ip = host.ip_string skaddr.ip in
    let named : Bytes = elim (host.names_of ip) [
      | none ↦ ip
      | some names ↦ elim names [ [] ↦ ip | name ∷ more ↦ name ]
    ] in
    let addr = if resolve then named else ip in
    (if ltb 17 (length addr) then take 17 addr else addr) ++ (b':' ∷ utoa skaddr.port)

-- `%-ns`, and `%-n.ns`, of ASCII texts.
unfoldable pub pad : ℕ → Bytes → Bytes
pad n s = s ++ replicate (n - length s) b' '

unfoldable pub column : ℕ → Bytes → Bytes
column n s = pad n (take n s)

unfoldable pub sock_line : Host → Bool → Bytes → SockTabEntry → Bytes
sock_line host resolve proto e =
    let p : Bytes = elim e.process [ none ↦ [] | some q ↦ process_string q ] in
    let state : Bytes = elim (state_string e.state) [
      | none ↦ host.bad_state e.state
      | some s ↦ s
    ] in
    pad 5 proto
    ++ (b' '
        ∷ (column 23 (lookup_addr host resolve e.local_addr)
            ++ (b' '
                ∷ (column 23 (lookup_addr host resolve e.remote_addr)
                    ++ (b' ' ∷ (pad 12 state ++ (b' ' ∷ (pad 16 p ++ codes "\n"))))))))

-- `fmt.Printf("%v\n", p)` of a slice of ports.
unfoldable pub ports_line : List ℕ → Bytes
ports_line ports = b'[' ∷ (join (texts ports) (b' ' ∷ []) ++ codes "]\n")
  where
    texts : List ℕ → List Bytes
    texts [] = []
    texts (p ∷ ps) = utoa p ∷ texts ps

unfoldable pub sock_lines : Host → Bool → Bytes → List SockTabEntry → List Bytes
sock_lines host resolve proto [] = []
sock_lines host resolve proto (e ∷ es) =
    sock_line host resolve proto e ∷ sock_lines host resolve proto es

-- `displaySockInfo`
unfoldable pub display_sock_info : Host → Bool → Bool → Bytes → List SockTabEntry → List Bytes
display_sock_info host resolve list_port proto socks =
    sock_lines host resolve proto socks
    ++ (if list_port then ports_line (to_ports socks) ∷ [] else [])
