-- ===== src/Netstat/Ports/Range.antt =====
-- netstat/netstat.go: which ports `FindAvailablePort` can return.
use ae_ro_go.Base.{
  ℕ, zero, suc, ◌/◌, ◌%◌, ◌<◌, ◌≡◌, ◌≢◌, refl, sym, ◌∙◌, ◌⊎◌, inl, inr, Bool, true, Bool-cases,
  arith,
}
use ae_ro_go.Base.Int.{ℤ, pos, negsuc, ◌+ℤ◌, ◌-ℤ◌, ◌≤ℤ◌, ltb_ℤ, pos_part, neg_part, int_laws}
use native.Mathlib.Nat.{mod-lt}
use ae_ro_go.Netstat.Ports.{
  PortRange, rand_ints, set_port_range, draw_loop, admitted, find_available_port,
}

-- Where a returned port comes from: the search gave up, or it took the port asked for, or one of
-- the stream.
data Chosen (probe : ℤ → Bool) (pool : ℕ → ℤ) (asked : ℤ) (p : ℤ) : Type 0 where
  gave_up : p ≡ pos 0 → Chosen probe pool asked p
  as_asked : p ≡ asked → probe p ≡ true → Chosen probe pool asked p
  drawn : (k : ℕ) → p ≡ pool k → probe p ≡ true → Chosen probe pool asked p

draw_loop-Chosen :
    (probe : ℤ → Bool) (n : ℕ) (asked : ℤ) (r : PortRange)
    → Chosen probe r.rand_pool asked (draw_loop probe n r).0
unfolding draw_loop
draw_loop-Chosen probe zero asked r = gave_up refl
draw_loop-Chosen probe (suc n) asked r = elim (Bool-cases (probe (r.rand_pool r.used))) [
  | inl t ↦ rw t (drawn r.used refl t)
  | inr f ↦ rw f (draw_loop-Chosen probe n asked (record r { used = suc r.used }))
]

find_available_port-Chosen :
    (probe : ℤ → Bool) (init : ℤ) (r : PortRange)
    → Chosen probe r.rand_pool (admitted r init) (find_available_port probe init r).0
unfolding find_available_port
find_available_port-Chosen probe init r = elim (Bool-cases (ltb_ℤ (pos 0) (admitted r init))) [
  | inl t ↦ elim (Bool-cases (probe (admitted r init))) [
    | inl free ↦ rw (t, free) (as_asked refl free)
    | inr busy ↦ rw (t, busy) (draw_loop-Chosen probe _ (admitted r init) r)
  ]
  | inr f ↦ rw f (draw_loop-Chosen probe _ (admitted r init) r)
]

-- Each `rand.Perm(n)` of the stream holds numbers below `n` only.
abbrev pub PermsFit : ℕ → (ℕ → ℕ → ℕ) → Type 0
PermsFit n perms = (k i : ℕ) → i < n → perms k i < n

-- The ports of the range without its end.
abbrev pub size_of : ℤ → ℤ → ℕ
size_of start end = pos_part (end -ℤ start)

one_part : (a : ℤ) → (pos_part a ≡ 0) ⊎ (neg_part a ≡ 0)
one_part (pos n) = inr refl
one_part (negsuc n) = inl refl

rand_ints_bounds :
    (start end : ℤ) (perms : ℕ → ℕ → ℕ)
    → 0 < size_of start end
    → PermsFit (size_of start end) perms
    → (i : ℕ)
    → (start ≤ℤ rand_ints start end perms i) × (rand_ints start end perms i +ℤ pos 1 ≤ℤ end)
unfolding rand_ints
rand_ints_bounds start end perms some_port fit i =
    let size = size_of start end in
    let small : perms (i / size) (i % size) < size =
      fit (i / size) (i % size) (mod-lt i some_port) in
    (omega int_laws, omega (int_laws, one_part (end -ℤ start)))

-- The package as `SetPortRange` leaves it, after `u` draws.
abbrev pub ranged : ℤ → ℤ → Bool → (ℕ → ℕ → ℕ) → ℕ → PortRange
ranged start end force perms u = record (set_port_range start end force perms) { used = u }

admitted_forced :
    (start end init : ℤ) (perms : ℕ → ℕ → ℕ) (u : ℕ)
    → let asked = admitted (ranged start end true perms u) init in
      (asked ≡ pos 0) ⊎ ((start ≤ℤ asked) × (asked ≤ℤ end))
unfolding admitted set_port_range
admitted_forced start end init perms u = ground arith

Chosen-forced :
    (probe : ℤ → Bool) (pool : ℕ → ℤ) (asked start end : ℤ) {p : ℤ}
    → Chosen probe pool asked p
    → ((k : ℕ) → (start ≤ℤ pool k) × (pool k +ℤ pos 1 ≤ℤ end))
    → (asked ≡ pos 0) ⊎ ((start ≤ℤ asked) × (asked ≤ℤ end))
    → (p ≡ pos 0) ⊎ ((start ≤ℤ p) × (p ≤ℤ end) × (probe p ≡ true))
Chosen-forced probe pool asked start end (gave_up e) ports a = inl e
Chosen-forced probe pool asked start end (as_asked e free) ports (inl z) = inl (e ∙ z)
Chosen-forced probe pool asked start end (as_asked e free) ports (inr (lo, hi)) =
    inr (rw e lo, rw e hi, free)
Chosen-forced probe pool asked start end (drawn k e free) ports a =
    let (lo, hi) = ports k in inr (rw e lo, rw e (omega int_laws), free)

-- With `forceRange`, if the range holds a port besides its end and each `rand.Perm(n)` holds
-- numbers below `n` only, the port is one of the range that could be listened on, or it is 0.
pub find_available_port_forced :
    (probe : ℤ → Bool) (start end init : ℤ) (perms : ℕ → ℕ → ℕ) (u : ℕ)
    → 0 < size_of start end
    → PermsFit (size_of start end) perms
    → let p = (find_available_port probe init (ranged start end true perms u)).0 in
      (p ≡ pos 0) ⊎ ((start ≤ℤ p) × (p ≤ℤ end) × (probe p ≡ true))
unfolding set_port_range
find_available_port_forced probe start end init perms u some_port fit =
    Chosen-forced probe (rand_ints start end perms) _ start end
      (find_available_port-Chosen probe init (ranged start end true perms u))
      (rand_ints_bounds start end perms some_port fit) (admitted_forced start end init perms u)

admitted_cases : (r : PortRange) (init : ℤ) → (admitted r init ≡ pos 0) ⊎ (admitted r init ≡ init)
unfolding admitted
admitted_cases r init = ground arith

Chosen-ne-end :
    (probe : ℤ → Bool) (pool : ℕ → ℤ) (asked init end : ℤ) {p : ℤ}
    → Chosen probe pool asked p
    → ((k : ℕ) → pool k +ℤ pos 1 ≤ℤ end)
    → (asked ≡ pos 0) ⊎ (asked ≡ init)
    → end ≢ pos 0
    → init ≢ end
    → p ≢ end
Chosen-ne-end probe pool asked init end (gave_up e) ports a nz ne q = nz (sym q ∙ e)
Chosen-ne-end probe pool asked init end (as_asked e _) ports (inl z) nz ne q = nz (sym q ∙ (e ∙ z))
Chosen-ne-end probe pool asked init end (as_asked e _) ports (inr z) nz ne q = ne (sym (e ∙ z) ∙ q)
Chosen-ne-end probe pool asked init end (drawn k e _) ports a nz ne q =
    let below : end +ℤ pos 1 ≤ℤ end = rw (← q, e) (rw (← (sym e ∙ q)) at (ports k)) in
    absurd (omega int_laws)

-- If the range holds a port besides its end, each `rand.Perm(n)` holds numbers below `n` only, and
-- the end is not 0, then the end is never assigned to a request that does not name it.
pub find_available_port-ne-end :
    (probe : ℤ → Bool) (start end init : ℤ) (force : Bool) (perms : ℕ → ℕ → ℕ) (u : ℕ)
    → 0 < size_of start end
    → PermsFit (size_of start end) perms
    → end ≢ pos 0
    → init ≢ end
    → (find_available_port probe init (ranged start end force perms u)).0 ≢ end
unfolding set_port_range
find_available_port-ne-end probe start end init force perms u some_port fit nz ne =
    Chosen-ne-end probe (rand_ints start end perms) _ init end
      (find_available_port-Chosen probe init (ranged start end force perms u))
      (λ k. (rand_ints_bounds start end perms some_port fit k).1)
      (admitted_cases (ranged start end force perms u) init) nz ne
