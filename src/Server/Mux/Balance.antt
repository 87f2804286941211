-- ===== src/Server/Mux/Balance.antt =====
-- server/mux.go: the round robin, and what becomes of it between requests.
use ae_ro_go.Base.{
  ℕ, zero, suc, ◌+◌, ◌%◌, ◌≡◌, refl, sym, ap, ◌∙◌, false, List, [], ◌∷◌, Bytes, length, get_or,
  head_or, leb, Bool-cases, inl, inr, arith,
}
use ae_ro_go.Base.Dict.{lookup}
use ae_ro_go.Server.Mux.{RoundRobin, Balancer, get_robin, update, pick}
use native.Mathlib.Nat.{mod-eq_of_lt, mod-add-mod}

-- The state after `k` picks from a pool that stays the same.
abbrev pub after : ℕ → RoundRobin → List Bytes → RoundRobin
after zero r pool = r
after (suc k) r pool = after k (update r pool).1 pool

update_current :
    (r : RoundRobin) (p : Bytes) (ps : List Bytes) (k : ℕ)
    → ((update r (p ∷ ps)).1.current + k) % length (p ∷ ps) ≡ (r.current + suc k) % length (p ∷ ps)
unfolding update
update_current r p ps k = elim (Bool-cases (leb (length (p ∷ ps)) r.current)) [
  | inl t ↦ rw t (
      ap (λ n. n % length (p ∷ ps)) (shift (r.current % length (p ∷ ps)) k)
      ∙ mod-add-mod r.current (length (p ∷ ps)) (suc k))
  | inr f ↦ rw f (ap (λ n. n % length (p ∷ ps)) (shift r.current k))
]
  where
    shift : (c k : ℕ) → c + 1 + k ≡ c + suc k
    shift c k = omega arith

pub update_picks :
    (r : RoundRobin) (p : Bytes) (ps : List Bytes)
    → (update r (p ∷ ps)).0 ≡ get_or (p ∷ ps) (r.current % length (p ∷ ps)) []
unfolding update
update_picks r p ps = elim (Bool-cases (leb (length (p ∷ ps)) r.current)) [
  | inl t ↦ rw t
  | inr f ↦ rw (f, mod-eq_of_lt {n = r.current} {m = length (p ∷ ps)} (ground arith))
]

-- While the pool stays the same, `update` goes round it: pick number `k` is the address `k` places
-- on from the current one, counted modulo the size of the pool.
pub update_cycles :
    (r : RoundRobin) (p : Bytes) (ps : List Bytes) (k : ℕ)
    → (update (after k r (p ∷ ps)) (p ∷ ps)).0
      ≡ get_or (p ∷ ps) ((r.current + k) % length (p ∷ ps)) []
update_cycles r p ps zero =
    update_picks r p ps
    ∙ ap (λ n. get_or (p ∷ ps) (n % length (p ∷ ps)) [])
        (sym (let e : r.current + 0 ≡ r.current = omega arith in e))
update_cycles r p ps (suc k) =
    update_cycles (update r (p ∷ ps)).1 p ps k
    ∙ ap (λ n. get_or (p ∷ ps) n []) (update_current r p ps k)

-- The picks of a series of requests for one tag, from the balancer that the first one finds.
abbrev pub picks : Balancer → Bytes → List (List Bytes) → List Bytes
picks balancer tag [] = []
picks balancer tag (avail ∷ rest) =
    (pick balancer tag avail).0 ∷ picks (pick balancer tag avail).1 tag rest

abbrev pub heads : List (List Bytes) → List Bytes
heads [] = []
heads (avail ∷ rest) = head_or [] avail ∷ heads rest

-- From the empty balancer that the program starts with, each request of a series for one tag gets
-- the first address of its list, or none if the list is empty.
pub picks_first :
    (tag : Bytes) (requests : List (List Bytes)) → picks [] tag requests ≡ heads requests
unfolding pick get_robin lookup update
picks_first tag [] = refl
picks_first tag ([] ∷ rest) = ap (◌∷◌ []) (picks_first tag rest)
picks_first tag ((p ∷ ps) ∷ rest) =
    let z : leb (suc (length ps)) 0 ≡ false = ground arith in
    rw z (ap (◌∷◌ p) (picks_first tag rest))
