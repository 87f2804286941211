-- ===== src/Netstat/Windows/ReadBack.antt =====
-- netstat/netstat_windows.go: the tables as the API lays them out, read back.
use ae_ro_go.Base.{
  ℕ, ◌^◌, ◌≡◌, ◌<◌, refl, sym, ap, ◌∙◌, Bool, List, [], ◌∷◌, ◌++◌, append_assoc, append-nil, map,
  Bytes, bytes_eq, All, length, if◌then◌else◌, Bool-cases, inl, inr,
}
use ae_ro_go.Netstat.Listing.{SockTabEntry, Mode, tcp, tcp6, udp, udp6}
use ae_ro_go.Netstat.Tables.{mode_name}
use ae_ro_go.Netstat.Linux.{put_uint32}
use ae_ro_go.Netstat.Windows.{
  Win, got, Row, Api, tcp_row, tcp6_row, udp_row, udp6_row, take_rows, rows, tcp_rows, tcp6_rows,
  udp_rows, udp6_rows, to_sock_tab_entry, sock_loop, socks_of, os_tcp_socks, os_tcp6_socks,
  os_udp_socks, os_udp6_socks, os_socks, table_of,
}
use ae_ro_go.Netstat.Windows.Layout.{
  FitsRow, Filler, tcp_bytes, tcp6_bytes, udp_bytes, udp6_bytes, unconnected, u32-put_uint32,
  tcp_row-tcp_bytes, tcp6_row-tcp6_bytes, udp_row-udp_bytes, udp6_row-udp6_bytes,
}

-- The rows in a row, and the count in front of them.
abbrev pub rows_bytes : (Row × Filler → Bytes) → List (Row × Filler) → Bytes
rows_bytes bytes [] = []
rows_bytes bytes (r ∷ rs) = bytes r ++ rows_bytes bytes rs

abbrev pub table_bytes : (Row × Filler → Bytes) → List (Row × Filler) → Bytes
table_bytes bytes rs = put_uint32 (length rs) ++ rows_bytes bytes rs

-- The entries that are accepted, in the order of the rows.
abbrev pub accepted : (SockTabEntry → Bool) → List Row → List SockTabEntry
accepted accept [] = []
accepted accept (r ∷ rs) =
    let rest = accepted accept rs in
    if accept (to_sock_tab_entry r) then to_sock_tab_entry r ∷ rest else rest

sock_loop-accepted :
    (accept : SockTabEntry → Bool) (sktab : List SockTabEntry) (rs : List Row)
    → sock_loop accept sktab rs ≡ sktab ++ accepted accept rs
unfolding sock_loop
sock_loop-accepted accept sktab [] = sym (append-nil sktab)
sock_loop-accepted accept sktab (r ∷ rs) = elim (Bool-cases (accept (to_sock_tab_entry r))) [
  | inl t ↦
      rw (t, sock_loop)
        (sock_loop-accepted accept (sktab ++ to_sock_tab_entry r ∷ []) rs
          ∙ append_assoc sktab (to_sock_tab_entry r ∷ []) (accepted accept rs))
  | inr f ↦ rw (f, sock_loop) (sock_loop-accepted accept sktab rs)
]

module _ (row : Bytes → Win (Row × Bytes)) (bytes : Row × Filler → Bytes) (known : Row → Row)
    (n : ℕ)
    (reads : (r : Row) (f : Filler) (mem : Bytes)
      → FitsRow n r f
      → row (bytes (r, f) ++ mem) ≡ got (known r, mem)) where
  take_rows-rows_bytes :
      (rs : List (Row × Filler)) (slack : Bytes)
      → All (λ l. FitsRow n l.0 l.1) rs
      → take_rows row (length rs) (rows_bytes bytes rs ++ slack) ≡ got (map (λ l. known l.0) rs)
  unfolding take_rows
  take_rows-rows_bytes [] slack h = refl
  take_rows-rows_bytes ((r, f) ∷ rs) slack h =
      rw
        (
          append_assoc (bytes (r, f)) (rows_bytes bytes rs) slack,
          reads r f (rows_bytes bytes rs ++ slack) h.0,
          take_rows-rows_bytes rs slack h.1,
        )
        refl

  socks_of-table_bytes :
      (accept : SockTabEntry → Bool) (rs : List (Row × Filler)) (slack : Bytes)
      → All (λ l. FitsRow n l.0 l.1) rs
      → length rs < 2 ^ 32
      → socks_of (got (table_bytes bytes rs ++ slack)) (rows row) accept
        ≡ got (accepted accept (map (λ l. known l.0) rs))
  unfolding socks_of rows
  socks_of-table_bytes accept rs slack h low =
      rw
        (
          append_assoc (put_uint32 (length rs)) (rows_bytes bytes rs) slack,
          u32-put_uint32 (length rs) (rows_bytes bytes rs ++ slack) low,
          take_rows-rows_bytes rs slack h,
          sock_loop-accepted accept [] (map (λ l. known l.0) rs),
        )
        refl

-- By table: the width of an address, the bytes of a row, and what is known of it.
abbrev pub width : Mode → ℕ
width tcp = 4
width tcp6 = 16
width udp = 4
width udp6 = 16

abbrev pub layout : Mode → Row × Filler → Bytes
layout tcp = tcp_bytes
layout tcp6 = tcp6_bytes
layout udp = udp_bytes
layout udp6 = udp6_bytes

abbrev pub known : Mode → Row → Row
known tcp r = r
known tcp6 r = r
known udp r = unconnected r
known udp6 r = unconnected r

-- If the API answers with a table of less than 2^32 rows in the layout of the mode, with any scopes,
-- offload states and bytes behind the ports, and any bytes behind the table, then `osSocks` of the mode returns exactly the accepted ones of the entries of its rows,
-- in their order: the addresses, the ports in host order, the state and the process id, and for UDP
-- no remote address and the state Close.
pub os_socks-table_bytes :
    (mode : Mode) (accept : SockTabEntry → Bool) (api : Bytes → Api) (rs : List (Row × Filler))
    (slack : Bytes)
    → All (λ l. FitsRow (width mode) l.0 l.1) rs
    → length rs < 2 ^ 32
    → table_of (api (mode_name mode)) mode ≡ got (table_bytes (layout mode) rs ++ slack)
    → os_socks api (mode_name mode) accept ≡ got (accepted accept (map (λ l. known mode l.0) rs))
unfolding tcp_rows tcp6_rows udp_rows udp6_rows os_socks os_tcp_socks os_tcp6_socks os_udp_socks
    os_udp6_socks bytes_eq
os_socks-table_bytes tcp accept api rs slack h low e =
    ap (λ t. socks_of t (rows tcp_row) accept) e
    ∙ socks_of-table_bytes tcp_row tcp_bytes (known tcp) 4 tcp_row-tcp_bytes accept rs slack h low
os_socks-table_bytes tcp6 accept api rs slack h low e =
    ap (λ t. socks_of t (rows tcp6_row) accept) e
    ∙ socks_of-table_bytes tcp6_row tcp6_bytes (known tcp6) 16 tcp6_row-tcp6_bytes accept rs slack h
        low
os_socks-table_bytes udp accept api rs slack h low e =
    ap (λ t. socks_of t (rows udp_row) accept) e
    ∙ socks_of-table_bytes udp_row udp_bytes (known udp) 4 udp_row-udp_bytes accept rs slack h low
os_socks-table_bytes udp6 accept api rs slack h low e =
    ap (λ t. socks_of t (rows udp6_row) accept) e
    ∙ socks_of-table_bytes udp6_row udp6_bytes (known udp6) 16 udp6_row-udp6_bytes accept rs slack h
        low
