-- ===== src/Netstat/Tables/AllPorts.antt =====
-- netstat/netstat.go: the ports of all tables, and the sockets of all tables.
use ae_ro_go.Base.{
  ℕ, ◌≡◌, refl, sym, ap, ◌∙◌, inl, inr, Bool, true, List, [], ◌∷◌, ◌++◌, append-nil, append_assoc,
  map, Bytes, bytes_eq, some, Option-cases,
}
use ae_ro_go.Base.Eq.{ℕ_eq}
use ae_ro_go.Util.Seq.{de_duplicate, map_indexed-map}
use ae_ro_go.Netstat.Listing.{
  SockTabEntry, Mode, tcp, tcp6, udp, udp6, to_ports, get_all_ports, get_all_ports-readable,
  readable,
}
use ae_ro_go.Netstat.Linux.{parse_sock_port-parse_socktab}
use ae_ro_go.Netstat.Tables.{
  Proc, do_netstat, list_ports, path_of, os_ports, os_mode_socks, mode_name, complete, add_socks,
  get_all_socks,
}

abbrev entry_port : SockTabEntry → ℕ
entry_port e = e.local_addr.port

list_ports-do_netstat :
    (sys : Proc) (path : Bytes) (accept : SockTabEntry → Bool) {tab : List SockTabEntry}
    → do_netstat sys path (λ e. true) ≡ some tab
    → list_ports sys path accept ≡ some (map entry_port tab)
unfolding do_netstat list_ports
list_ports-do_netstat sys path accept {tab} h = elim (Option-cases (sys path)) [
  | inl e ↦ cc (rw (e, do_netstat) at h)
  | inr (f, e) ↦
      rw (e, list_ports) (parse_sock_port-parse_socktab accept f tab (rw (e, do_netstat) at h))
]

os_ports-os_mode_socks :
    (sys : Proc) (mode : Mode) (accept : SockTabEntry → Bool) {tab : List SockTabEntry}
    → os_mode_socks sys mode (λ e. true) ≡ some tab
    → os_ports sys (mode_name mode) accept ≡ some (map entry_port tab)
unfolding os_mode_socks os_ports path_of bytes_eq
os_ports-os_mode_socks sys tcp accept h = list_ports-do_netstat sys _ accept h
os_ports-os_mode_socks sys tcp6 accept h = list_ports-do_netstat sys _ accept h
os_ports-os_mode_socks sys udp accept h = list_ports-do_netstat sys _ accept h
os_ports-os_mode_socks sys udp6 accept h = list_ports-do_netstat sys _ accept h

map-append :
    (xs ys : List SockTabEntry) → map entry_port (xs ++ ys) ≡ map entry_port xs ++ map entry_port ys
map-append [] ys = refl
map-append (x ∷ xs) ys = ap (◌∷◌ (entry_port x)) (map-append xs ys)

readable-add_socks :
    (sys : Proc) (accept : SockTabEntry → Bool) (modes : List Mode) (sktab : List SockTabEntry)
    {tab : List SockTabEntry}
    → add_socks (λ mode. os_mode_socks sys mode (λ e. true)) modes sktab ≡ complete tab
    → map entry_port tab
      ≡ map entry_port sktab ++ readable (λ mode. os_ports sys (mode_name mode) accept) modes
unfolding add_socks
readable-add_socks sys accept [] sktab {tab} h =
    let same : sktab ≡ tab = cc in rw (append-nil, same) refl
readable-add_socks sys accept (mode ∷ modes) sktab {tab} h =
    elim (Option-cases (os_mode_socks sys mode (λ e. true))) [
      | inl e ↦ cc (rw (e, add_socks) at h)
      | inr (tbl, e) ↦
          readable-add_socks sys accept modes (sktab ++ tbl) (rw (e, add_socks) at h)
          ∙ rw
              (
                map-append sktab tbl,
                os_ports-os_mode_socks sys mode accept e,
                readable,
                append_assoc,
              )
              refl
    ]

-- If all four tables can be opened and read, `GetAllPorts` returns what `ToPorts` makes of the sockets
-- that `GetAllSocks` gives with `NoopFilter`, whatever filter it is called with itself.
pub get_all_ports-get_all_socks :
    (sys : Proc) (accept : SockTabEntry → Bool) (tab : List SockTabEntry)
    → get_all_socks sys (λ e. true) ≡ complete tab
    → get_all_ports (λ mode. os_ports sys (mode_name mode) accept) ≡ to_ports tab
unfolding get_all_socks to_ports
get_all_ports-get_all_socks sys accept tab h =
    get_all_ports-readable (λ mode. os_ports sys (mode_name mode) accept)
    ∙ ap de_duplicate (
        sym (readable-add_socks sys accept (tcp ∷ tcp6 ∷ udp ∷ udp6 ∷ []) [] h)
        ∙ sym (map_indexed-map entry_port tab))
