-- ===== src/Netstat/Cmd.antt =====
-- netstat/cmd/main.go: the netstat command, on Linux, from its flags to what it prints.
pub mod Display
pub mod Filter
pub mod Laws
pub mod Occupying
pub mod Shown
use ae_ro_go.Base.{
  ℕ, zero, suc, ◌+◌, ◌-◌, ◌^◌, Bool, true, false, not, ◌||◌, ◌&&◌, List, [], ◌∷◌, ◌++◌, Bytes,
  bytes_eq, codes, Option, none, some, length, take, replicate, get_elem?, ltb, ◌==◌, if◌then◌else◌,
}
use ae_ro_go.Base.Int.{ℤ, pos, negsuc, ◌+ℤ◌, ◌-ℤ◌, pos_part}
use ae_ro_go.Base.Decimal.{utoa, itoa, atoi_value}
use ae_ro_go.Util.Text.{split, join}
use ae_ro_go.Netstat.Ports.{find_one_available_port}
use ae_ro_go.Netstat.Listing.{SockAddr, SockTabEntry, Mode, tcp, tcp6, udp, udp6, to_ports}
use ae_ro_go.Netstat.Cmd.Display.{Host, pad, display_sock_info}
use ae_ro_go.Netstat.Tables.{Proc, os_mode_socks, mode_name}

pub record Flags : Type 0 where
  pub ocp : Bytes
  pub range : Bytes
  pub list_port : Bool
  pub show_udp : Bool
  pub show_tcp : Bool
  pub listening : Bool
  pub all : Bool
  pub resolve : Bool
  pub ipv4 : Bool
  pub ipv6 : Bool
  pub help : Bool

-- `ports[0]` and `ports[1]` as numbers, where errors are not looked at; `none` is the panic of an
-- index that is out of range.
unfoldable pub two_ports : Bytes → Option (ℤ × ℤ)
two_ports arg = elim (split arg (b':' ∷ [])) [
  | [] ↦ none
  | start ∷ rest ↦ elim rest [ [] ↦ none | end ∷ more ↦ some (atoi_value start, atoi_value end) ]
]

-- The ports from `port` on, `n` of them.
unfoldable pub ports_from : ℕ → ℤ → List ℤ
ports_from zero port = []
ports_from (suc n) port = port ∷ ports_from n (port +ℤ pos 1)

-- The branch of `-ocp`: the ports that the command holds, or a panic.
pub data Occupied : Type 0 where
  crashed : Occupied
  holding : List ℤ → Occupied

unfoldable pub hold : (ℤ → Bool) → List ℤ → List ℤ
hold listen [] = []
hold listen (p ∷ ps) = if listen p then p ∷ hold listen ps else hold listen ps

-- `listener, _ := net.Listen(…)`: the listener of a port, or nil after an error.
unfoldable pub listen_at : (ℤ → Bool) → ℤ → Option ℤ
listen_at listen port = if listen port then some port else none

-- `listener.Accept()`, a call of a method of an interface, which nil has not; the loop of `Accept`
-- holds all the listeners.
unfoldable pub accept_on : Option ℤ → List ℤ → Occupied
accept_on none held = crashed
accept_on (some port) held = holding (held ++ port ∷ [])

unfoldable pub occupy : (ℤ → Bool) → Bytes → Occupied
occupy listen arg = elim (two_ports arg) [
  | none ↦ crashed
  | some (s_port, e_port) ↦
      accept_on (listen_at listen e_port)
        (hold listen (ports_from (pos_part (e_port -ℤ s_port)) s_port))
]

-- The branch of `-range`: the line that is printed, a panic of an index, or a search without an end.
pub data Searched : Type 0 where
  says : Bytes → Searched
  unfit endless : Searched

unfoldable pub print_range : (ℤ → Bool) → Bytes → Searched
print_range probe arg = elim (two_ports arg) [
  | none ↦ unfit
  | some (s_port, e_port) ↦ elim (find_one_available_port probe s_port e_port) [
    | none ↦ endless
    | some found ↦ elim found [
      | none ↦ says (codes "no available port in the specified range\n")
      | some port ↦ says (codes "Available port: " ++ (itoa port ++ codes "\n"))
    ]
  ]
]

-- `proto`, whether it has each of the two bits.
unfoldable pub proto_of : Flags → Bool × Bool
proto_of flags = if flags.ipv4 || flags.ipv6 then (flags.ipv4, flags.ipv6) else (true, true)

-- The state `Listen` of Linux.
abbrev pub listen_state : ℕ
listen_state = 10

-- `fn`: which sockets of TCP are displayed.
unfoldable pub accept_fn : Flags → SockTabEntry → Bool
accept_fn flags e =
    if flags.all
    then true
    else if flags.listening
    then e.state == listen_state
    else not (e.state == listen_state)

-- The tables that are displayed, in their order, each with its filter.
unfoldable pub selected : Flags → List (Mode × (SockTabEntry → Bool))
selected flags =
    let (four, six) = proto_of flags in
    let tcps =
      (if four then (tcp, accept_fn flags) ∷ [] else [])
      ++ (if six then (tcp6, accept_fn flags) ∷ [] else []) in
    if flags.show_udp
    then (if four then (udp, λ e. true) ∷ [] else [])
      ++ ((if six then (udp6, λ e. true) ∷ [] else []) ++ (if flags.show_tcp then tcps else []))
    else tcps

-- The tables one after the other; one that cannot be read is passed over.
unfoldable pub display_all : Host → Flags → Proc → List (Mode × (SockTabEntry → Bool)) → List Bytes
display_all host flags sys [] = []
display_all host flags sys ((mode, accept) ∷ rest) = elim (os_mode_socks sys mode accept) [
  | none ↦ display_all host flags sys rest
  | some socks ↦
      display_sock_info host flags.resolve flags.list_port (mode_name mode) socks
      ++ display_all host flags sys rest
]

-- How the command goes on: the screen of `-help`, the ports that it holds, the lines it prints,
-- a search that does not end, or a panic.
pub data Ran : Type 0 where
  usage : Ran
  occupies : List ℤ → Ran
  prints : List Bytes → Ran
  searches : Ran
  panics : Ran

unfoldable pub header_lines : Host → List Bytes
header_lines host =
    (if host.euid == 0
      then []
      else codes "Not all processes could be identified, you would have to be root to see it all.\n"
        ∷ [])
    ++ (codes "Proto "
        ++ (pad 23 (codes "Local Addr")
            ++ (b' '
                ∷ (pad 23 (codes "Foreign Addr")
                    ++ (b' '
                        ∷ (pad 12 (codes "State")
                            ++ (b' ' ∷ (pad 16 (codes "PID/Program name") ++ codes "\n"))))))))
      ∷ []

-- `main`, after `flag.Parse`; `listen` and `probe` are what `net.Listen` answers at a port.
unfoldable pub run_netstat : Host → Proc → (ℤ → Bool) → (ℤ → Bool) → Flags → Ran
run_netstat host sys listen probe flags =
    if flags.help
    then usage
    else if not (bytes_eq flags.ocp [])
    then elim (occupy listen flags.ocp) [ crashed ↦ panics | holding ports ↦ occupies ports ]
    else if not (bytes_eq flags.range [])
    then elim (print_range probe flags.range) [
      | says line ↦ prints (line ∷ [])
      | unfit ↦ panics
      | endless ↦ searches
    ]
    else prints (header_lines host ++ display_all host flags sys (selected flags))
