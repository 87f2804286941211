-- ===== src/Netstat/Ports.antt =====
-- netstat/netstat.go: the choice of a port to listen on. Whether a port can be listened on just then
-- is `probe`, the answer of `net.Listen` with the listener closed again.
pub mod Scan
pub mod Range
use ae_ro_go.Base.{
  ℕ, zero, suc, ◌+◌, ◌-◌, ◌^◌, ◌/◌, ◌%◌, ◌≤◌, ◌<◌, ◌≡◌, ◌≢◌, refl, ◌⊎◌, inl, inr, Bool, true, false,
  ◌&&◌, ◌||◌, List, [], ◌∷◌, Option, none, some, All, get_or, if◌then◌else◌, Bool-cases, ltb,
  length, arith,
}
use ae_ro_go.Base.Int.{
  ℤ, pos, negsuc, ◌+ℤ◌, ◌-ℤ◌, ◌≤ℤ◌, ltb_ℤ, pos_part, int_laws, +ℤ_parts, -ℤ_parts,
}

-- The loop of `FindOneAvailablePort`: the first port that can be listened on. `n` ports are left.
unfoldable pub find_one_loop : (ℤ → Bool) → ℕ → ℤ → Option ℤ
find_one_loop probe zero port = none
find_one_loop probe (suc n) port =
    let rest = find_one_loop probe n (port +ℤ pos 1) in if probe port then some port else rest

-- The rounds of `for port := start; port <= end; port++`.
unfoldable pub rounds : ℤ → ℤ → ℕ
rounds start end = pos_part (end +ℤ pos 1 -ℤ start)

-- The largest int is never passed: `port++` wraps there, and the loop goes through all ints again and
-- again; `none` is a loop without an end.
unfoldable pub wrapped_around : (ℤ → Bool) → Option (Option ℤ)
wrapped_around probe = elim (find_one_loop probe (2 ^ 64) (negsuc (2 ^ 63 - 1))) [
  | none ↦ none
  | some port ↦ some (some port)
]

-- `FindOneAvailablePort`: a port, or the error that there is none.
unfoldable pub find_one_available_port : (ℤ → Bool) → ℤ → ℤ → Option (Option ℤ)
unfolding find_one_loop
find_one_available_port probe start end = elim (find_one_loop probe (rounds start end) start) [
  | none ↦ if ltb_ℤ end (pos (2 ^ 63 - 1)) then some none else wrapped_around probe
  | some port ↦ some (some port)
]

-- The package's variables. `rand_pool` is the channel's stream of ports, of which `used` are taken.
pub record PortRange : Type 0 where
  pub s_port : ℤ
  pub e_port : ℤ
  pub force : Bool
  pub rand_pool : ℕ → ℤ
  pub used : ℕ

-- `randInts`: `perms k` is the k-th `rand.Perm(end - start)`; place `i` of the stream is in the
-- permutation number `i / (end - start)`.
unfoldable pub rand_ints : ℤ → ℤ → (ℕ → ℕ → ℕ) → ℕ → ℤ
rand_ints start end perms i = start +ℤ pos (perms (i / size) (i % size))
  where
    size : ℕ
    size = pos_part (end -ℤ start)

-- `SetPortRange`
unfoldable pub set_port_range : ℤ → ℤ → Bool → (ℕ → ℕ → ℕ) → PortRange
set_port_range start_port end_port force_range perms = record {
  s_port = start_port;
  e_port = end_port;
  force = force_range;
  rand_pool = rand_ints start_port end_port perms;
  used = 0;
}

-- The draws of `FindAvailablePort`, with `n` rounds left.
unfoldable pub draw_loop : (ℤ → Bool) → ℕ → PortRange → ℤ × PortRange
draw_loop probe zero r = (pos 0, r)
draw_loop probe (suc n) r =
    let port = r.rand_pool r.used in
    let r' = record r { used = suc r.used } in
    let rest = draw_loop probe n r' in if probe port then (port, r') else rest

-- The port that is asked for, after the range check.
unfoldable pub admitted : PortRange → ℤ → ℤ
admitted r init = if r.force && (ltb_ℤ init r.s_port || ltb_ℤ r.e_port init) then pos 0 else init

-- `FindAvailablePort`
unfoldable pub find_available_port : (ℤ → Bool) → ℤ → PortRange → ℤ × PortRange
find_available_port probe init r =
    let asked = admitted r init in
    let drawn_on = draw_loop probe (rounds asked r.e_port) r in
    let drawn = draw_loop probe (rounds r.s_port r.e_port) r in
    if ltb_ℤ (pos 0) asked then (if probe asked then (asked, r) else drawn_on) else drawn
