-- ===== src/Netstat/Runs/Tables.antt =====
-- Runs of the listings of all tables, of the set of all ports and of the search for a process.
use ae_ro_go.Base.{
  ℕ, ◌≡◌, ◌<◌, ◌≢◌, refl, true, false, List, [], ◌∷◌, ◌++◌, Bytes, bytes_eq, codes, some, All, ltb,
  ◌==◌, if◌then◌else◌, Bool-cases, inl, inr, append-nil, arith,
}
use ae_ro_go.Base.Int.{pos}
use ae_ro_go.Base.Eq.{contains, ℕ_eq}
use ae_ro_go.Netstat.Listing.{Mode, tcp, tcp6, udp, udp6, to_ports, get_all_ports}
use ae_ro_go.Netstat.Linux.{parse_socktab, socktab_loop}
use ae_ro_go.Netstat.Tables.{
  Proc, do_netstat, os_mode_socks, os_ports, mode_name, complete, add_socks, get_all_socks,
}
use ae_ro_go.Netstat.Tables.AllPorts.{get_all_ports-get_all_socks}
use ae_ro_go.Netstat.PortSet.{Bitmap, Ascending, get_all_port_set, get_all_port_set-get_all_ports}
use ae_ro_go.Netstat.Process.{process_of}
use ae_ro_go.Netstat.Process.Names.{process_of_names}
use ae_ro_go.Netstat.Windows.{
  got, Row, Api, table_of, get_tcp_table, get_tcp_bytes, raw_get_tcp_table, with_buffer, filled,
  os_socks, to_sock_tab_entry,
}
use ae_ro_go.Netstat.Windows.Layout.{FitsRow, Filler, tcp_bytes}
use ae_ro_go.Netstat.Windows.ReadBack.{table_bytes, os_socks-table_bytes}
use ae_ro_go.Netstat.Runs.{table, entry, table_run, listings}

-- One socket of tcp, and none of the others.
abbrev proc : Proc
proc path = if bytes_eq path (codes "/proc/net/tcp") then some table else some []

tcp_socks : os_mode_socks proc tcp (λ e. true) ≡ some (entry ∷ [])
unfolding os_mode_socks do_netstat bytes_eq
tcp_socks = table_run

no_socks : (mode : Mode) → mode ≢ tcp → os_mode_socks proc mode (λ e. true) ≡ some []
unfolding os_mode_socks do_netstat bytes_eq parse_socktab socktab_loop
no_socks tcp n = absurd (n refl)
no_socks tcp6 n = refl
no_socks udp n = refl
no_socks udp6 n = refl

all_socks : get_all_socks proc (λ e. true) ≡ complete (entry ∷ [])
unfolding get_all_socks add_socks
all_socks =
    rw
      (
        get_all_socks,
        tcp_socks,
        add_socks,
        no_socks tcp6 (λ e. cc),
        no_socks udp (λ e. cc),
        no_socks udp6 (λ e. cc),
      )
      refl

get_all_ports-get_all_socks_example :
    get_all_ports (λ mode. os_ports proc (mode_name mode) (λ e. false)) ≡ to_ports (entry ∷ [])
get_all_ports-get_all_socks_example =
    get_all_ports-get_all_socks proc (λ e. false) (entry ∷ []) all_socks

-- A name with brackets, and a name with a space.
process_of_names_example :
    (process_of (pos 42) (codes "42 ((sd-pam)) S 1") ≡ some (pos 42, codes "(sd-pam)"))
    × (process_of (pos 42) (codes "42 (web S 1") ≡ some (pos 42, []))
process_of_names_example =
    process_of_names (pos 42) (codes "42") (codes "(sd-pam)") (codes "web") (codes "S 1")
      ((λ e. cc), ((λ e. cc), tt))
      (
        (λ e. cc),
        (
          (λ e. cc),
          ((λ e. cc), ((λ e. cc), ((λ e. cc), ((λ e. cc), ((λ e. cc), ((λ e. cc), tt)))))),
        ),
      )
      ((λ e. cc), ((λ e. cc), ((λ e. cc), tt))) ((λ e. cc), ((λ e. cc), ((λ e. cc), tt)))
      (omega arith) (omega arith)

-- A bitmap as the list of its members.
insert_sorted : ℕ → List ℕ → List ℕ
insert_sorted v [] = v ∷ []
insert_sorted v (x ∷ xs) =
    let rest = insert_sorted v xs in
    if ltb v x then v ∷ x ∷ xs else if v == x then x ∷ xs else x ∷ rest

contains-insert_sorted :
    (v : ℕ) (xs : List ℕ) (p : ℕ)
    → contains (insert_sorted v xs) p ≡ (if v == p then true else contains xs p)
unfolding insert_sorted contains
contains-insert_sorted v [] p = ground arith
contains-insert_sorted v (x ∷ xs) p = ground (arith, contains-insert_sorted v xs p)

above : (n m : ℕ) (xs : List ℕ) → n < m → All (λ y. m < y) xs → All (λ y. n < y) xs
above n m [] h k = tt
above n m (x ∷ xs) h k = (omega arith, above n m xs h k.1)

insert_sorted-above :
    (n v : ℕ) (xs : List ℕ) → n < v → All (λ y. n < y) xs → All (λ y. n < y) (insert_sorted v xs)
unfolding insert_sorted
insert_sorted-above n v [] h k = (h, tt)
insert_sorted-above n v (x ∷ xs) h k = ground (arith, insert_sorted-above n v xs h k.1)

insert_sorted-Ascending : (v : ℕ) (xs : List ℕ) → Ascending xs → Ascending (insert_sorted v xs)
unfolding insert_sorted
insert_sorted-Ascending v [] h = (tt, tt)
insert_sorted-Ascending v (x ∷ xs) h = elim (Bool-cases (ltb v x)) [
  | inl t ↦ rw (t, insert_sorted) ((ground arith, above v x xs (ground arith) h.0), h)
  | inr f ↦ elim (Bool-cases (v == x)) [
    | inl e ↦ rw (f, e, insert_sorted) h
    | inr n ↦
        rw (f, n, insert_sorted)
          (insert_sorted-above x v xs (ground arith) h.0, insert_sorted-Ascending v xs h.1)
  ]
]

abbrev sorted : Bitmap
sorted = record {
  B = (xs : List ℕ) × Ascending xs;
  new = ([], tt);
  add = λ v b. (insert_sorted v b.0, insert_sorted-Ascending v b.0 b.1);
  to_array = λ b. b.0;
  ascends = λ b. b.1;
  array-new = refl;
  array-add = λ v b p h. contains-insert_sorted v b.0 p;
}

get_all_port_set-get_all_ports_example :
    Ascending (get_all_port_set sorted listings)
    × ((p : ℕ)
        → contains (get_all_port_set sorted listings) p ≡ contains (get_all_ports listings) p)
get_all_port_set-get_all_ports_example =
    get_all_port_set-get_all_ports sorted listings
      (omega arith, (omega arith, (omega arith, (omega arith, (omega arith, tt)))))

-- One connection of a process to a server.
abbrev row : Row
row = record {
  local_sock = record { ip = 127 ∷ 0 ∷ 0 ∷ 1 ∷ []; port = 8080 };
  remote_sock = record { ip = 10 ∷ 0 ∷ 0 ∷ 2 ∷ []; port = 443 };
  sock_state = 5;
  pid = 42;
}

-- The API leaves the state of the offload, and bytes behind the ports.
abbrev filler : Filler
filler = record {
  local_scope = 7;
  remote_scope = 0;
  local_high = (1, 2);
  remote_high = (3, 4);
  offload = 2;
}

row-FitsRow : FitsRow 4 row filler
row-FitsRow = record {
  local_fits = record { ip_length = refl; port_low = omega arith };
  remote_fits = record { ip_length = refl; port_low = omega arith };
  state_low = omega arith;
  local_scope_low = omega arith;
  remote_scope_low = omega arith;
  offload_low = omega arith;
  pid_low = omega arith;
}

abbrev api : Bytes → Api
api call = record {
  ask = (record { r1 = 122; call_err = 0 }, 32);
  fill = λ n. (record { r1 = 0; call_err = 0 }, table_bytes tcp_bytes ((row, filler) ∷ []));
}

api_table :
    table_of (api (codes "tcp")) tcp ≡ got (table_bytes tcp_bytes ((row, filler) ∷ []) ++ [])
unfolding get_tcp_table get_tcp_bytes raw_get_tcp_table with_buffer filled
api_table = rw (append-nil (table_bytes tcp_bytes ((row, filler) ∷ []))) refl

os_socks-table_bytes_example :
    os_socks api (codes "tcp") (λ e. true) ≡ got (to_sock_tab_entry row ∷ [])
os_socks-table_bytes_example =
    os_socks-table_bytes tcp (λ e. true) api ((row, filler) ∷ []) [] (row-FitsRow, tt) (omega arith)
      api_table
