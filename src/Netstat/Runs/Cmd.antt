-- ===== src/Netstat/Runs/Cmd.antt =====
-- Runs of the netstat command at concrete inputs.
use ae_ro_go.Base.{◌≡◌, refl, Bool, true, false, [], ◌∷◌, ◌++◌, codes, Option, none, some, arith}
use ae_ro_go.Base.Int.{ℤ, pos}
use ae_ro_go.Base.Decimal.{utoa}
use ae_ro_go.Netstat.Ports.Scan.{FirstFree}
use ae_ro_go.Netstat.Listing.{tcp, tcp6, udp, udp6}
use ae_ro_go.Netstat.Tables.{Proc, os_mode_socks, do_netstat}
use ae_ro_go.Netstat.Cmd.Display.{Host}
use ae_ro_go.Netstat.Cmd.{Flags, prints, header_lines, run_netstat}
use ae_ro_go.Netstat.Cmd.Shown.{table_lines, run_netstat-table_lines}
use ae_ro_go.Netstat.Runs.{table, entry, table_run}
use ae_ro_go.Netstat.Cmd.Laws.{range_line, run_netstat-FirstFree}

abbrev host : Host
host = record {
  ip_string = λ ip. codes "127.0.0.1";
  names_of = λ addr. none;
  bad_state = λ s. codes "?";
  euid = 0;
}

no_files : Proc
no_files path = none

any_port : ℤ → Bool
any_port p = true

abbrev flags : Flags
flags = record {
  ocp = [];
  range = [];
  list_port = false;
  show_udp = false;
  show_tcp = true;
  listening = true;
  all = false;
  resolve = false;
  ipv4 = true;
  ipv6 = false;
  help = false;
}

abbrev search_flags : Flags
search_flags = record flags { range = utoa 8000 ++ (b':' ∷ utoa 8004) }

run_netstat-FirstFree_example :
    (found : Option ℤ) × FirstFree any_port (pos 8000) (pos 8004) found
    × (run_netstat host no_files any_port any_port search_flags ≡ prints (range_line found ∷ []))
run_netstat-FirstFree_example =
    run_netstat-FirstFree host no_files any_port any_port search_flags 8000 8004 refl refl refl
      (omega arith) (omega arith)

abbrev hold_flags : Flags
hold_flags = record flags { ocp = utoa 8000 ++ (b':' ∷ utoa 8004) }

abbrev one_table : Proc
one_table path = some table

tcp_read : os_mode_socks one_table tcp (λ e. true) ≡ some (entry ∷ [])
unfolding os_mode_socks do_netstat
tcp_read = table_run

-- The table is read for TCP, and its one socket is shown or not.
run_netstat-table_lines_example :
    run_netstat host one_table any_port any_port flags
    ≡ prints (
        header_lines host
        ++ (table_lines host one_table flags udp
            ++ (table_lines host one_table flags udp6
                ++ (table_lines host one_table flags tcp
                    ++ table_lines host one_table flags tcp6))))
run_netstat-table_lines_example =
    run_netstat-table_lines host one_table any_port any_port flags refl refl refl
