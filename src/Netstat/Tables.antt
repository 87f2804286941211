-- ===== src/Netstat/Tables.antt =====
-- netstat/netstat_linux.go and netstat/netstat.go: the four tables of the system, opened and read, and
-- all of them in a row.
pub mod AllPorts
use ae_ro_go.Base.{
  Bool, List, [], ◌++◌, ◌∷◌, Bytes, bytes_eq, codes, ℕ, Option, none, some, if◌then◌else◌,
}
use ae_ro_go.Netstat.Listing.{SockTabEntry, Mode, tcp, tcp6, udp, udp6}
use ae_ro_go.Netstat.Linux.{parse_socktab, parse_sock_port}

-- The lines of a file, as a scanner reads them; `none` if it cannot be opened.
abbrev pub Proc : Type 0
Proc = Bytes → Option (List Bytes)

-- `DoNetstat`
unfoldable pub do_netstat : Proc → Bytes → (SockTabEntry → Bool) → Option (List SockTabEntry)
do_netstat sys path accept = elim (sys path) [ none ↦ none | some f ↦ parse_socktab accept f ]

-- `ListPorts`
unfoldable pub list_ports : Proc → Bytes → (SockTabEntry → Bool) → Option (List ℕ)
list_ports sys path accept = elim (sys path) [ none ↦ none | some f ↦ parse_sock_port accept f ]

-- The `switch` of `osPorts` and `osSocks`; `none` is an unknown mode.
unfoldable pub path_of : Bytes → Option Bytes
path_of mode =
    if bytes_eq mode (codes "tcp")
    then some (codes "/proc/net/tcp")
    else if bytes_eq mode (codes "tcp6")
    then some (codes "/proc/net/tcp6")
    else if bytes_eq mode (codes "udp")
    then some (codes "/proc/net/udp")
    else if bytes_eq mode (codes "udp6")
    then some (codes "/proc/net/udp6")
    else none

unfoldable pub os_ports : Proc → Bytes → (SockTabEntry → Bool) → Option (List ℕ)
os_ports sys mode accept = elim (path_of mode) [
  | none ↦ none
  | some path ↦ list_ports sys path accept
]

unfoldable pub os_socks : Proc → Bytes → (SockTabEntry → Bool) → Option (List SockTabEntry)
os_socks sys mode accept = elim (path_of mode) [
  | none ↦ none
  | some path ↦ do_netstat sys path accept
]

abbrev pub mode_name : Mode → Bytes
mode_name tcp = codes "tcp"
mode_name tcp6 = codes "tcp6"
mode_name udp = codes "udp"
mode_name udp6 = codes "udp6"

-- `osTCPSocks`, `osTCP6Socks`, `osUDPSocks` and `osUDP6Socks`.
unfoldable pub os_mode_socks : Proc → Mode → (SockTabEntry → Bool) → Option (List SockTabEntry)
os_mode_socks sys tcp accept = do_netstat sys (codes "/proc/net/tcp") accept
os_mode_socks sys tcp6 accept = do_netstat sys (codes "/proc/net/tcp6") accept
os_mode_socks sys udp accept = do_netstat sys (codes "/proc/net/udp") accept
os_mode_socks sys udp6 accept = do_netstat sys (codes "/proc/net/udp6") accept

-- What a list of sockets is, and whether an error comes with it.
pub data Listed : Type 0 where
  complete : List SockTabEntry → Listed
  cut_short : List SockTabEntry → Listed

-- The tables after the first one, up to one that fails.
unfoldable pub add_socks :
    (Mode → Option (List SockTabEntry)) → List Mode → List SockTabEntry → Listed
add_socks socks [] sktab = complete sktab
add_socks socks (mode ∷ modes) sktab = elim (socks mode) [
  | none ↦ cut_short sktab
  | some tbl ↦ add_socks socks modes (sktab ++ tbl)
]

-- `GetAllSocks`
unfoldable pub get_all_socks : Proc → (SockTabEntry → Bool) → Listed
get_all_socks sys accept =
    add_socks (λ mode. os_mode_socks sys mode accept) (tcp ∷ tcp6 ∷ udp ∷ udp6 ∷ []) []
