-- ===== src/Netstat/Runs.antt =====
-- Runs of the choice of a port and of the socket tables at concrete inputs.
mod Cmd
mod Tables
use ae_ro_go.Base.{ℕ, ◌≡◌, ◌≢◌, refl, ◌⊎◌, Bool, true, false, some, leb, arith}
use ae_ro_go.Base.Int.{ℤ, pos, negsuc, ◌+ℤ◌, ◌-ℤ◌, ◌≤ℤ◌}
use ae_ro_go.Netstat.Ports.{
  find_one_available_port, find_available_port, rand_ints, set_port_range, draw_loop, admitted,
  rounds, find_one_loop,
}
use ae_ro_go.Base.{List, [], ◌∷◌, Bytes, codes, Option, none}
use ae_ro_go.Base.Eq.{contains, Distinct, ℕ_eq}
use ae_ro_go.Util.Seq.{de_duplicate}
use ae_ro_go.Util.Text.{split, cut, has_prefix}
use ae_ro_go.Netstat.Listing.{
  Mode, tcp, tcp6, udp, udp6, SockTabEntry, get_all_ports, readable, get_all_ports_lem,
}
use ae_ro_go.Netstat.Linux.{
  parse_socktab, socktab_loop, parse_entry, line_fields, strip_comment, fields, parse_addr,
  parse_ip, parse_ipv4, put_uint32, parse_uint, parse_sock_port, parse_sock_port-parse_socktab,
}
use ae_ro_go.Netstat.Ports.Scan.{FirstFree, find_one_available_port-FirstFree}
use ae_ro_go.Netstat.Ports.Range.{
  PermsFit, size_of, ranged, find_available_port_forced, find_available_port-ne-end,
}

-- Every port from 8002 on can be listened on.
abbrev probe : ℤ → Bool
probe (pos n) = leb 8002 n
probe (negsuc n) = false

-- Each permutation is the identity.
abbrev same : ℕ → ℕ → ℕ
same k i = i

same-PermsFit : PermsFit (size_of (pos 8000) (pos 8004)) same
unfolding ◌-ℤ◌
same-PermsFit k i h = h

scan_run : find_one_available_port probe (pos 8000) (pos 8004) ≡ some (some (pos 8002))
unfolding find_one_available_port find_one_loop rounds ◌+ℤ◌ ◌-ℤ◌
scan_run = refl

-- A port outside the range is not admitted, and the third draw is the first that is free.
draw_run :
    (find_available_port probe (pos 22) (ranged (pos 8000) (pos 8004) true same 0)).0 ≡ pos 8002
unfolding find_available_port draw_loop admitted rounds set_port_range rand_ints ◌+ℤ◌ ◌-ℤ◌
draw_run = refl

find_available_port_forced_example :
    let p = (find_available_port probe (pos 22) (ranged (pos 8000) (pos 8004) true same 0)).0 in
    (p ≡ pos 0) ⊎ ((pos 8000 ≤ℤ p) × (p ≤ℤ pos 8004) × (probe p ≡ true))
unfolding ◌-ℤ◌
find_available_port_forced_example =
    find_available_port_forced probe (pos 8000) (pos 8004) (pos 22) same 0 (omega arith)
      same-PermsFit

-- Two tables can be read, the third cannot.
abbrev listings : Mode → Option (List ℕ)
listings tcp = some (22 ∷ 80 ∷ 22 ∷ [])
listings tcp6 = some (80 ∷ 443 ∷ [])
listings udp = none
listings udp6 = some (53 ∷ [])

get_all_ports_run : get_all_ports listings ≡ 22 ∷ 80 ∷ 443 ∷ []
unfolding get_all_ports de_duplicate contains
get_all_ports_run = refl

abbrev table : List Bytes
table =
    codes "  sl  local_address rem_address   st"
    ∷ codes "0: 0100007F:1F90 00000000:0000 0A 0:0 00:0 0 1000 0 4711 1 0"
    ∷ []

abbrev entry : SockTabEntry
entry = record {
  ino = codes "4711";
  local_addr = record { ip = 127 ∷ 0 ∷ 0 ∷ 1 ∷ []; port = 8080 };
  remote_addr = record { ip = 0 ∷ 0 ∷ 0 ∷ 0 ∷ []; port = 0 };
  state = 10;
  uid = 1000;
  process = none;
}

table_run : parse_socktab (λ e. true) table ≡ some (entry ∷ [])
unfolding parse_socktab socktab_loop parse_entry line_fields strip_comment fields parse_addr
    parse_ip parse_ipv4 put_uint32 parse_uint split cut has_prefix
table_run = refl

parse_sock_port-parse_socktab_example : parse_sock_port (λ e. false) table ≡ some (8080 ∷ [])
parse_sock_port-parse_socktab_example =
    parse_sock_port-parse_socktab (λ e. false) table (entry ∷ []) table_run
