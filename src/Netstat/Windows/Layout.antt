-- ===== src/Netstat/Windows/Layout.antt =====
-- netstat/netstat_windows.go: the rows of the tables as the API lays them out.
use ae_ro_go.Base.{
  ℕ, ◌/◌, ◌%◌, ◌^◌, ◌≡◌, ◌<◌, refl, sym, ap, [], ◌∷◌, ◌++◌, append_assoc, Bytes, length, take, drop,
  take-append_self, drop-append_self, arith,
}
use ae_ro_go.Netstat.Listing.{SockAddr}
use ae_ro_go.Netstat.Linux.{put_uint32}
use ae_ro_go.Netstat.Windows.{
  got, Row, u32, memtohs, win_sock, win_sock6, win_port, tcp_row, tcp6_row, udp_row, udp6_row,
  no_remote, close_state,
}

-- What the API writes between the values that are read: the scopes of IPv6 addresses, the two bytes
-- behind each port, and the state of the offload.
pub record Filler : Type 0 where
  pub local_scope : ℕ
  pub remote_scope : ℕ
  pub local_high : ℕ × ℕ
  pub remote_high : ℕ × ℕ
  pub offload : ℕ

-- The port in network order, in front of two bytes that say nothing.
abbrev port_bytes : ℕ × ℕ → ℕ → Bytes
port_bytes high p = p / 2 ^ 8 ∷ p % 2 ^ 8 ∷ high.0 ∷ high.1 ∷ []

abbrev sock_bytes : ℕ × ℕ → SockAddr → Bytes
sock_bytes high s = s.ip ++ port_bytes high s.port

abbrev sock6_bytes : ℕ → ℕ × ℕ → SockAddr → Bytes
sock6_bytes scope high s = s.ip ++ (put_uint32 scope ++ port_bytes high s.port)

pub record FitsSock (n : ℕ) (s : SockAddr) : Type 0 where
  pub ip_length : length s.ip ≡ n
  pub port_low : s.port < 2 ^ 16

pub u32-put_uint32 : (n : ℕ) (mem : Bytes) → n < 2 ^ 32 → u32 (put_uint32 n ++ mem) ≡ got (n, mem)
unfolding u32 put_uint32
u32-put_uint32 n mem h = ap (λ x. got (x, mem)) (omega arith)

memtohs-port : (p : ℕ) → p < 2 ^ 16 → memtohs (p / 2 ^ 8) (p % 2 ^ 8) ≡ p
unfolding memtohs
memtohs-port p h = omega arith

win_sock-sock_bytes :
    (high : ℕ × ℕ) (s : SockAddr) (mem : Bytes)
    → FitsSock 4 s
    → win_sock (sock_bytes high s ++ mem) ≡ got (s, mem)
unfolding win_sock
win_sock-sock_bytes high s mem v = go s.ip v.ip_length
  where
    go :
        (ip : Bytes)
        → length ip ≡ 4
        → win_sock (ip ++ port_bytes high s.port ++ mem)
          ≡ got (record { ip = ip; port = s.port }, mem)
    go (a ∷ b ∷ c ∷ d ∷ []) e = rw (memtohs-port s.port v.port_low) refl
    go [] e = absurd (omega arith)
    go (a ∷ []) e = absurd (omega arith)
    go (a ∷ b ∷ []) e = absurd (omega arith)
    go (a ∷ b ∷ c ∷ []) e = absurd (omega arith)
    go (a ∷ b ∷ c ∷ d ∷ f ∷ ip) e = absurd (omega arith)

take_ip : (n : ℕ) (ip rest : Bytes) → length ip ≡ n → take n (ip ++ rest) ≡ ip
take_ip n ip rest e = rw (sym e) (take-append_self ip rest)

drop_ip : (n : ℕ) (ip rest : Bytes) → length ip ≡ n → drop n (ip ++ rest) ≡ rest
drop_ip n ip rest e = rw (sym e) (drop-append_self ip rest)

win_sock6-sock6_bytes :
    (scope : ℕ) (high : ℕ × ℕ) (s : SockAddr) (mem : Bytes)
    → scope < 2 ^ 32
    → FitsSock 16 s
    → win_sock6 (sock6_bytes scope high s ++ mem) ≡ got (s, mem)
unfolding win_sock6 win_port
win_sock6-sock6_bytes scope high s mem h v =
    rw
      (
        append_assoc s.ip (put_uint32 scope ++ port_bytes high s.port) mem,
        take_ip 16 s.ip (put_uint32 scope ++ port_bytes high s.port ++ mem) v.ip_length,
        drop_ip 16 s.ip (put_uint32 scope ++ port_bytes high s.port ++ mem) v.ip_length,
      )
      (rw
        (
          append_assoc (put_uint32 scope) (port_bytes high s.port) mem,
          u32-put_uint32 scope (port_bytes high s.port ++ mem) h,
          memtohs-port s.port v.port_low,
        )
        refl)

-- The rows of the four tables.
abbrev pub tcp_bytes : Row × Filler → Bytes
tcp_bytes (r, f) =
    put_uint32 r.sock_state
    ++ (sock_bytes f.local_high r.local_sock
        ++ (sock_bytes f.remote_high r.remote_sock ++ (put_uint32 r.pid ++ put_uint32 f.offload)))

abbrev pub tcp6_bytes : Row × Filler → Bytes
tcp6_bytes (r, f) =
    sock6_bytes f.local_scope f.local_high r.local_sock
    ++ (sock6_bytes f.remote_scope f.remote_high r.remote_sock
        ++ (put_uint32 r.sock_state ++ (put_uint32 r.pid ++ put_uint32 f.offload)))

abbrev pub udp_bytes : Row × Filler → Bytes
udp_bytes (r, f) = sock_bytes f.local_high r.local_sock ++ put_uint32 r.pid

abbrev pub udp6_bytes : Row × Filler → Bytes
udp6_bytes (r, f) = sock6_bytes f.local_scope f.local_high r.local_sock ++ put_uint32 r.pid

-- A row with addresses of `n` bytes.
pub record FitsRow (n : ℕ) (r : Row) (f : Filler) : Type 0 where
  pub local_fits : FitsSock n r.local_sock
  pub remote_fits : FitsSock n r.remote_sock
  pub state_low : r.sock_state < 2 ^ 8
  pub pid_low : r.pid < 2 ^ 32
  pub local_scope_low : f.local_scope < 2 ^ 32
  pub remote_scope_low : f.remote_scope < 2 ^ 32
  pub offload_low : f.offload < 2 ^ 32

-- What is known of a UDP row.
abbrev pub unconnected : Row → Row
unconnected r = record r { remote_sock = no_remote; sock_state = close_state }

pub tcp_row-tcp_bytes :
    (r : Row) (f : Filler) (mem : Bytes)
    → FitsRow 4 r f
    → tcp_row (tcp_bytes (r, f) ++ mem) ≡ got (r, mem)
unfolding tcp_row
tcp_row-tcp_bytes r f mem v =
    let state_word : r.sock_state < 2 ^ 32 = let low = v.state_low in omega arith in
    let low : r.sock_state % 2 ^ 8 ≡ r.sock_state = let h = v.state_low in omega arith in
    rw
      (
        append_assoc (put_uint32 r.sock_state),
        u32-put_uint32 r.sock_state _ state_word,
        append_assoc (sock_bytes f.local_high r.local_sock),
        win_sock-sock_bytes f.local_high r.local_sock _ v.local_fits,
        append_assoc (sock_bytes f.remote_high r.remote_sock),
        win_sock-sock_bytes f.remote_high r.remote_sock _ v.remote_fits,
        append_assoc (put_uint32 r.pid),
        u32-put_uint32 r.pid _ v.pid_low,
        u32-put_uint32 f.offload mem v.offload_low,
        low,
      )
      refl

pub tcp6_row-tcp6_bytes :
    (r : Row) (f : Filler) (mem : Bytes)
    → FitsRow 16 r f
    → tcp6_row (tcp6_bytes (r, f) ++ mem) ≡ got (r, mem)
unfolding tcp6_row
tcp6_row-tcp6_bytes r f mem v =
    let state_word : r.sock_state < 2 ^ 32 = let low = v.state_low in omega arith in
    let low : r.sock_state % 2 ^ 8 ≡ r.sock_state = let h = v.state_low in omega arith in
    rw
      (
        append_assoc (sock6_bytes f.local_scope f.local_high r.local_sock),
        win_sock6-sock6_bytes f.local_scope f.local_high r.local_sock _ v.local_scope_low
            v.local_fits,
        append_assoc (sock6_bytes f.remote_scope f.remote_high r.remote_sock),
        win_sock6-sock6_bytes f.remote_scope f.remote_high r.remote_sock _ v.remote_scope_low
            v.remote_fits,
        append_assoc (put_uint32 r.sock_state),
        u32-put_uint32 r.sock_state _ state_word,
        append_assoc (put_uint32 r.pid),
        u32-put_uint32 r.pid _ v.pid_low,
        u32-put_uint32 f.offload mem v.offload_low,
        low,
      )
      refl

pub udp_row-udp_bytes :
    (r : Row) (f : Filler) (mem : Bytes)
    → FitsRow 4 r f
    → udp_row (udp_bytes (r, f) ++ mem) ≡ got (unconnected r, mem)
unfolding udp_row
udp_row-udp_bytes r f mem v =
    rw
      (
        append_assoc (sock_bytes f.local_high r.local_sock),
        win_sock-sock_bytes f.local_high r.local_sock _ v.local_fits,
        u32-put_uint32 r.pid _ v.pid_low,
      )
      refl

pub udp6_row-udp6_bytes :
    (r : Row) (f : Filler) (mem : Bytes)
    → FitsRow 16 r f
    → udp6_row (udp6_bytes (r, f) ++ mem) ≡ got (unconnected r, mem)
unfolding udp6_row
udp6_row-udp6_bytes r f mem v =
    rw
      (
        append_assoc (sock6_bytes f.local_scope f.local_high r.local_sock),
        win_sock6-sock6_bytes f.local_scope f.local_high r.local_sock _ v.local_scope_low
            v.local_fits,
        u32-put_uint32 r.pid _ v.pid_low,
      )
      refl
