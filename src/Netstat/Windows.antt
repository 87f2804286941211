-- ===== src/Netstat/Windows.antt =====
-- netstat/netstat_windows.go: the tables of Windows, as the bytes that its API writes on amd64.
pub mod Layout
pub mod ReadBack
pub mod Processes
use ae_ro_go.Base.{
  ℕ, zero, suc, ◌+◌, ◌*◌, ◌^◌, ◌%◌, Bool, not, none, List, [], ◌∷◌, ◌++◌, Bytes, bytes_eq, codes,
  take, drop, ◌==◌, if◌then◌else◌,
}
use ae_ro_go.Netstat.Listing.{SockAddr, SockTabEntry, to_ports, Mode, tcp, tcp6, udp, udp6}

-- A value, an error that is returned, or a fault: a panic, or a read behind the table.
pub data Win {ℓ} (A : Type ℓ) : Type ℓ where
  got : A → Win A
  failed : Win A
  fault : Win A

infixl 5 ◌>>=◌
abbrev ◌>>=◌ {ℓ κ} : {A : Type ℓ} {B : Type κ} → Win A → (A → Win B) → Win B
got a >>= f = f a
failed >>= f = failed
fault >>= f = fault

-- A uint32 in memory.
unfoldable pub u32 : Bytes → Win (ℕ × Bytes)
u32 (a ∷ b ∷ c ∷ d ∷ mem) = got (a + b * 2 ^ 8 + c * 2 ^ 16 + d * 2 ^ 24, mem)
u32 _ = fault

-- `memtohs`
unfoldable pub memtohs : ℕ → ℕ → ℕ
memtohs a b = a * 2 ^ 8 + b

-- `Sock` of a WinSock: its port is in the first two bytes of a uint32.
unfoldable pub win_sock : Bytes → Win (SockAddr × Bytes)
win_sock (a ∷ b ∷ c ∷ d ∷ p ∷ q ∷ _ ∷ _ ∷ mem) =
    got (record { ip = a ∷ b ∷ c ∷ d ∷ []; port = memtohs p q }, mem)
win_sock _ = fault

-- The port of a WinSock6.
unfoldable pub win_port : Bytes → Bytes → Win (SockAddr × Bytes)
win_port ip (p ∷ q ∷ _ ∷ _ ∷ mem) = got (record { ip = ip; port = memtohs p q }, mem)
win_port ip _ = fault

-- `Sock` of a WinSock6: 16 bytes of address, the scope and the port.
unfoldable pub win_sock6 : Bytes → Win (SockAddr × Bytes)
win_sock6 mem = u32 (drop 16 mem) >>= λ scope. win_port (take 16 mem) scope.1

-- What `winSockEnt` gives of a row.
pub record Row : Type 0 where
  pub local_sock : SockAddr
  pub remote_sock : SockAddr
  pub sock_state : ℕ
  pub pid : ℕ

-- `MibTCPRow`
unfoldable pub tcp_row : Bytes → Win (Row × Bytes)
tcp_row mem = u32 mem >>= λ state. win_sock state.1 >>= λ local. win_sock local.1 >>= λ remote.
    u32 remote.1 >>= λ pid. u32 pid.1 >>= λ offload. got (
      record {
        local_sock = local.0;
        remote_sock = remote.0;
        sock_state = state.0 % 2 ^ 8;
        pid = pid.0;
      },
      offload.1,
    )

-- `MibTCP6Row`
unfoldable pub tcp6_row : Bytes → Win (Row × Bytes)
tcp6_row mem = win_sock6 mem >>= λ local. win_sock6 local.1 >>= λ remote. u32 remote.1 >>= λ state.
    u32 state.1 >>= λ pid. u32 pid.1 >>= λ offload. got (
      record {
        local_sock = local.0;
        remote_sock = remote.0;
        sock_state = state.0 % 2 ^ 8;
        pid = pid.0;
      },
      offload.1,
    )

-- `&SockAddr{net.IPv4zero, 0}`, the 16 bytes of which net gives.
abbrev pub no_remote : SockAddr
no_remote = record {
  ip = 0 ∷ 0 ∷ 0 ∷ 0 ∷ 0 ∷ 0 ∷ 0 ∷ 0 ∷ 0 ∷ 0 ∷ 255 ∷ 255 ∷ 0 ∷ 0 ∷ 0 ∷ 0 ∷ [];
  port = 0;
}

abbrev pub close_state : ℕ
close_state = 1

-- `MibUDP4RowOwnerPID`
unfoldable pub udp_row : Bytes → Win (Row × Bytes)
udp_row mem = win_sock mem >>= λ local. u32 local.1 >>= λ pid. got (
  record { local_sock = local.0; remote_sock = no_remote; sock_state = close_state; pid = pid.0 },
  pid.1,
)

-- `MibUDP6RowOwnerPID`
unfoldable pub udp6_row : Bytes → Win (Row × Bytes)
udp6_row mem = win_sock6 mem >>= λ local. u32 local.1 >>= λ pid. got (
  record { local_sock = local.0; remote_sock = no_remote; sock_state = close_state; pid = pid.0 },
  pid.1,
)

unfoldable pub take_rows : (Bytes → Win (Row × Bytes)) → ℕ → Bytes → Win (List Row)
take_rows row zero mem = got []
take_rows row (suc n) mem = row mem >>= λ r. take_rows row n r.1 >>= λ rest. got (r.0 ∷ rest)

-- `Rows`: as many as the uint32 in front says.
unfoldable pub rows : (Bytes → Win (Row × Bytes)) → Bytes → Win (List Row)
rows row mem = u32 mem >>= λ n. take_rows row n.0 n.1

-- `Rows` of `MibTCPTable`, `MibTCP6Table`, `MibUDP4TableOwnerPID` and `MibUDP6TableOwnerPID`.
unfoldable pub tcp_rows : Bytes → Win (List Row)
tcp_rows = rows tcp_row

unfoldable pub tcp6_rows : Bytes → Win (List Row)
tcp6_rows = rows tcp6_row

unfoldable pub udp_rows : Bytes → Win (List Row)
udp_rows = rows udp_row

unfoldable pub udp6_rows : Bytes → Win (List Row)
udp6_rows = rows udp6_row

-- `toSockTabEntry`
unfoldable pub to_sock_tab_entry : Row → SockTabEntry
to_sock_tab_entry r = record {
  ino = [];
  local_addr = r.local_sock;
  remote_addr = r.remote_sock;
  state = r.sock_state;
  uid = r.pid;
  process = none;
}

-- The loop over the rows.
unfoldable pub sock_loop : (SockTabEntry → Bool) → List SockTabEntry → List Row → List SockTabEntry
sock_loop accept sktab [] = sktab
sock_loop accept sktab (r ∷ rs) =
    let ent = to_sock_tab_entry r in
    sock_loop accept (if accept ent then sktab ++ ent ∷ [] else sktab) rs

-- What `syscall.Syscall` returns of a call: its result and the error of the call, 0 for none.
pub record Returned : Type 0 where
  pub r1 : ℕ
  pub call_err : ℕ

-- What the API gives for a table: at the call that asks for the size, and at that with a buffer.
pub record Api : Type 0 where
  pub ask : Returned × ℕ
  pub fill : ℕ → Returned × Bytes

-- `rawGetTCPTable`: the number of the error, 0 for none.
unfoldable pub raw_get_tcp_table : Returned → ℕ
raw_get_tcp_table ret = if not (ret.call_err == 0) then ret.call_err else ret.r1

-- `getExtendedUDPTable`
unfoldable pub raw_get_udp_table : Returned → ℕ
raw_get_udp_table ret = if not (ret.call_err == 0) then ret.call_err else ret.r1

-- `errInsuffBuff`
abbrev pub insufficient : ℕ
insufficient = 122

unfoldable pub filled : ℕ → Bytes → Win Bytes
filled zero mem = got mem
filled (suc e) mem = failed

-- `&buf[0]` and the second call.
unfoldable pub with_buffer : (Returned → ℕ) → Api → ℕ → Win Bytes
with_buffer error api zero = fault
with_buffer error api (suc n) = let (ret, mem) = api.fill (suc n) in filled (error ret) mem

-- `getTCPTable`
unfoldable pub get_tcp_bytes : Api → Win Bytes
get_tcp_bytes api =
    let (ret, size) = api.ask in
    let e = raw_get_tcp_table ret in
    if e == 0
    then with_buffer raw_get_tcp_table api size
    else if e == insufficient
    then with_buffer raw_get_tcp_table api size
    else failed

-- `GetExtendedUDPTable`
unfoldable pub get_udp_bytes : Api → Win Bytes
get_udp_bytes api =
    let (ret, size) = api.ask in
    let e = raw_get_udp_table ret in
    if e == 0
    then with_buffer raw_get_udp_table api size
    else if e == insufficient
    then with_buffer raw_get_udp_table api size
    else failed

-- `GetTCPTable`, `GetTCP6Table`, `GetUDPTableOwnerPID` and `GetUDP6TableOwnerPID`: the bytes are seen
-- as the struct of the table.
unfoldable pub get_tcp_table : Api → Win Bytes
get_tcp_table api = get_tcp_bytes api

unfoldable pub get_tcp6_table : Api → Win Bytes
get_tcp6_table api = get_tcp_bytes api

unfoldable pub get_udp_table_owner_pid : Api → Win Bytes
get_udp_table_owner_pid api = get_udp_bytes api

unfoldable pub get_udp6_table_owner_pid : Api → Win Bytes
get_udp6_table_owner_pid api = get_udp_bytes api

-- The table of a mode.
abbrev pub table_of : Api → Mode → Win Bytes
table_of api tcp = get_tcp_table api
table_of api tcp6 = get_tcp6_table api
table_of api udp = get_udp_table_owner_pid api
table_of api udp6 = get_udp6_table_owner_pid api

-- `getSocks`, which the four below are written out of.
unfoldable pub socks_of :
    Win Bytes → (Bytes → Win (List Row)) → (SockTabEntry → Bool) → Win (List SockTabEntry)
socks_of table rows_of accept = table >>= λ mem. rows_of mem >>= λ rs. got (sock_loop accept [] rs)

unfoldable pub os_tcp_socks : Api → (SockTabEntry → Bool) → Win (List SockTabEntry)
os_tcp_socks api = socks_of (table_of api tcp) tcp_rows

unfoldable pub os_tcp6_socks : Api → (SockTabEntry → Bool) → Win (List SockTabEntry)
os_tcp6_socks api = socks_of (table_of api tcp6) tcp6_rows

unfoldable pub os_udp_socks : Api → (SockTabEntry → Bool) → Win (List SockTabEntry)
os_udp_socks api = socks_of (table_of api udp) udp_rows

unfoldable pub os_udp6_socks : Api → (SockTabEntry → Bool) → Win (List SockTabEntry)
os_udp6_socks api = socks_of (table_of api udp6) udp6_rows

-- `osSocks`, where `api` says which call of the API is made.
unfoldable pub os_socks : (Bytes → Api) → Bytes → (SockTabEntry → Bool) → Win (List SockTabEntry)
os_socks api mode accept =
    if bytes_eq mode (codes "tcp")
    then os_tcp_socks (api mode) accept
    else if bytes_eq mode (codes "tcp6")
    then os_tcp6_socks (api mode) accept
    else if bytes_eq mode (codes "udp")
    then os_udp_socks (api mode) accept
    else if bytes_eq mode (codes "udp6")
    then os_udp6_socks (api mode) accept
    else failed

-- `osPorts`
unfoldable pub os_ports : (Bytes → Api) → Bytes → (SockTabEntry → Bool) → Win (List ℕ)
os_ports api mode accept = os_socks api mode accept >>= λ socks. got (to_ports socks)
