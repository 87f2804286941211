-- ===== src/Netstat/Linux.antt =====
-- netstat/netstat_linux.go: the parsers of the tables /proc/net/tcp and the like, on the lines that a
-- scanner gives. White space is ASCII.
use ae_ro_go.Base.{
  ℕ, zero, suc, ◌+◌, ◌-◌, ◌*◌, ◌^◌, ◌/◌, ◌%◌, ◌≡◌, refl, ap, ◌∙◌, Bool, true, ◌&&◌, ◌||◌, List, [],
  ◌∷◌, ◌++◌, map, Bytes, codes, Option, none, some, length, take, drop, get_or, ltb, leb, ◌==◌,
  if◌then◌else◌, Option-cases, inl, inr, arith,
}
use ae_ro_go.Util.Text.{split}
use ae_ro_go.Netstat.Listing.{SockAddr, SockTabEntry}

infixl 5 ◌>>=◌
abbrev ◌>>=◌ {ℓ κ} : {A : Type ℓ} {B : Type κ} → Option A → (A → Option B) → Option B
none >>= f = none
some a >>= f = f a

digit : ℕ → Option ℕ
digit c =
    if leb b'0' c && leb c b'9'
    then some (c - b'0')
    else if leb b'a' c && leb c b'z'
    then some (c - b'a' + 10)
    else if leb b'A' c && leb c b'Z'
    then some (c - b'A' + 10)
    else none

digits : ℕ → ℕ → Bytes → Option ℕ
unfolding digit
digits base acc [] = some acc
digits base acc (c ∷ s) =
    digit c >>= λ d. if ltb d base then digits base (acc * base + d) s else none

-- `strconv.ParseUint(s, base, bits)`, at a base that is given.
unfoldable pub parse_uint : ℕ → ℕ → Bytes → Option ℕ
unfolding digits
parse_uint base bits [] = none
parse_uint base bits (c ∷ s) =
    digits base 0 (c ∷ s) >>= λ v. if ltb v (2 ^ bits) then some v else none

-- `binary.LittleEndian.PutUint32`
unfoldable pub put_uint32 : ℕ → Bytes
put_uint32 v = v % 256 ∷ v / 2 ^ 8 % 256 ∷ v / 2 ^ 16 % 256 ∷ v / 2 ^ 24 % 256 ∷ []

unfoldable pub parse_ipv4 : Bytes → Option Bytes
parse_ipv4 s = parse_uint 16 32 s >>= λ v. some (put_uint32 v)

-- The loop of `parseIPv6`, with `n` groups of eight digits left.
unfoldable pub parse_groups : ℕ → Bytes → Option Bytes
parse_groups zero s = some []
parse_groups (suc n) s = parse_uint 16 32 (take 8 s) >>= λ u.
    parse_groups n (drop 8 s) >>= λ rest. some (put_uint32 u ++ rest)

-- `parseIPv6`, on the 32 digits that `parseAddr` calls it with.
unfoldable pub parse_ipv6 : Bytes → Option Bytes
parse_ipv6 s = parse_groups 4 s

unfoldable pub parse_ip : Bytes → Option Bytes
parse_ip s = if length s == 8 then parse_ipv4 s else if length s == 32 then parse_ipv6 s else none

addr_of : List Bytes → Option SockAddr
addr_of [] = none
addr_of (f ∷ []) = none
addr_of (f ∷ g ∷ rest) =
    parse_ip f >>= λ ip. parse_uint 16 16 g >>= λ v. some (record { ip = ip; port = v })

port_of : List Bytes → Option ℕ
port_of [] = none
port_of (f ∷ []) = none
port_of (f ∷ g ∷ rest) = parse_uint 16 16 g

-- `parseAddr`
unfoldable pub parse_addr : Bytes → Option SockAddr
unfolding addr_of
parse_addr s = addr_of (split s (codes ":"))

-- `parsePort`
unfoldable pub parse_port : Bytes → Option ℕ
unfolding port_of
parse_port s = port_of (split s (codes ":"))

-- The line up to a `#`.
unfoldable pub strip_comment : Bytes → Bytes
strip_comment [] = []
strip_comment (c ∷ s) = if c == b'#' then [] else c ∷ strip_comment s

is_space : ℕ → Bool
is_space c = c == 32 || leb 9 c && leb c 13

flush : Bytes → List Bytes → List Bytes
flush [] fields = fields
flush (c ∷ s) fields = (c ∷ s) ∷ fields

words : Bytes → Bytes → List Bytes
unfolding is_space flush
words cur [] = flush cur []
words cur (c ∷ s) =
    let ended = words [] s in
    let longer = words (cur ++ c ∷ []) s in if is_space c then flush cur ended else longer

-- `strings.Fields`
unfoldable pub fields : Bytes → List Bytes
unfolding words
fields s = words [] s

-- The fields of a line, 12 at least.
unfoldable pub line_fields : Bytes → Option (List Bytes)
line_fields line =
    let fs = fields (strip_comment line) in if ltb (length fs) 12 then none else some fs

-- One line of `ParseSocktab`.
unfoldable pub parse_entry : Bytes → Option SockTabEntry
parse_entry line = line_fields line >>= λ fs. parse_addr (get_or fs 1 []) >>= λ local.
    parse_addr (get_or fs 2 []) >>= λ remote. parse_uint 16 8 (get_or fs 3 []) >>= λ state.
    parse_uint 10 32 (get_or fs 7 []) >>= λ uid. some (record {
      ino = get_or fs 9 [];
      local_addr = local;
      remote_addr = remote;
      state = state;
      uid = uid;
      process = none;
    })

unfoldable pub socktab_loop :
    (SockTabEntry → Bool) → List SockTabEntry → List Bytes → Option (List SockTabEntry)
socktab_loop accept tab [] = some tab
socktab_loop accept tab (line ∷ lines) =
    parse_entry line >>= λ e. socktab_loop accept (if accept e then tab ++ e ∷ [] else tab) lines

-- `ParseSocktab`, on the lines with the title; an error of the scanner is not looked at here.
unfoldable pub parse_socktab : (SockTabEntry → Bool) → List Bytes → Option (List SockTabEntry)
parse_socktab accept lines = socktab_loop accept [] (drop 1 lines)

-- One line of `ParseSockPort`.
unfoldable pub parse_line_port : Bytes → Option ℕ
parse_line_port line = line_fields line >>= λ fs. parse_port (get_or fs 1 [])

unfoldable pub sock_port_loop : List ℕ → List Bytes → Option (List ℕ)
sock_port_loop ports [] = some ports
sock_port_loop ports (line ∷ lines) =
    parse_line_port line >>= λ port. sock_port_loop (ports ++ port ∷ []) lines

-- `ParseSockPort`, which makes no use of `accept`.
unfoldable pub parse_sock_port : (SockTabEntry → Bool) → List Bytes → Option (List ℕ)
parse_sock_port accept lines = sock_port_loop [] (drop 1 lines)

bind_inv {ℓ κ} :
    {A : Type ℓ} {B : Type κ} (o : Option A) (f : A → Option B) {b : B}
    → (o >>= f) ≡ some b
    → (a : A) × (o ≡ some a) × (f a ≡ some b)
bind_inv none f h = cc
bind_inv (some a) f h = (a, refl, h)

-- What `parseAddr` accepts, `parsePort` accepts with the same port.
parse_port-parse_addr :
    (s : Bytes) (a : SockAddr) → parse_addr s ≡ some a → parse_port s ≡ some a.port
unfolding parse_port parse_addr
parse_port-parse_addr s a h = go (split s (codes ":")) h
  where
    go : (fs : List Bytes) → addr_of fs ≡ some a → port_of fs ≡ some a.port
    go [] e = cc
    go (f ∷ []) e = cc
    go (f ∷ g ∷ rest) e = ground arith

parse_line_port-parse_entry :
    (line : Bytes) (e : SockTabEntry)
    → parse_entry line ≡ some e
    → parse_line_port line ≡ some e.local_addr.port
unfolding parse_entry parse_line_port
parse_line_port-parse_entry line e h =
    let (fs, p, h1) = bind_inv (line_fields line) _ h in
    let (local, q, h2) = bind_inv (parse_addr (get_or fs 1 [])) _ h1 in
    let (remote, _, h3) = bind_inv (parse_addr (get_or fs 2 [])) _ h2 in
    let (state, _, h4) = bind_inv (parse_uint 16 8 (get_or fs 3 [])) _ h3 in
    let (uid, _, h5) = bind_inv (parse_uint 10 32 (get_or fs 7 [])) _ h4 in
    let same : local ≡ e.local_addr = ground arith in
    rw (p, parse_line_port)
      (parse_port-parse_addr (get_or fs 1 []) local q ∙ ap (λ a. some a.port) same)

map-snoc :
    (tab : List SockTabEntry) (e : SockTabEntry)
    → map (λ x. x.local_addr.port) (tab ++ e ∷ [])
      ≡ map (λ x. x.local_addr.port) tab ++ e.local_addr.port ∷ []
map-snoc [] e = refl
map-snoc (x ∷ tab) e = ap (◌∷◌ x.local_addr.port) (map-snoc tab e)

sock_port_loop-socktab_loop :
    (tab out : List SockTabEntry) (lines : List Bytes)
    → socktab_loop (λ e. true) tab lines ≡ some out
    → sock_port_loop (map (λ e. e.local_addr.port) tab) lines
      ≡ some (map (λ e. e.local_addr.port) out)
unfolding socktab_loop sock_port_loop
sock_port_loop-socktab_loop tab out [] h = ground arith
sock_port_loop-socktab_loop tab out (line ∷ lines) h = elim (Option-cases (parse_entry line)) [
  | inl n ↦ cc (rw (n, socktab_loop) at h)
  | inr (e, p) ↦
      rw (parse_line_port-parse_entry line e p, sock_port_loop, ← map-snoc tab e)
        (sock_port_loop-socktab_loop (tab ++ e ∷ []) out lines (rw (p, socktab_loop) at h))
]

-- Whenever `ParseSocktab` can read a table, `ParseSockPort` reads it too, and gives the ports of all
-- its entries, whatever `accept` says of them.
pub parse_sock_port-parse_socktab :
    (accept : SockTabEntry → Bool) (lines : List Bytes) (tab : List SockTabEntry)
    → parse_socktab (λ e. true) lines ≡ some tab
    → parse_sock_port accept lines ≡ some (map (λ e. e.local_addr.port) tab)
unfolding parse_socktab parse_sock_port
parse_sock_port-parse_socktab accept lines tab h =
    sock_port_loop-socktab_loop [] tab (drop 1 lines) h
