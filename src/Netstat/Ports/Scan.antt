-- ===== src/Netstat/Ports/Scan.antt =====
-- netstat/netstat.go: `FindOneAvailablePort` and the least free port.
use ae_ro_go.Base.{
  ℕ, zero, suc, ◌≡◌, refl, ◌⊎◌, inl, inr, Bool, true, false, Option, none, some, Option-cases, ◌^◌,
  ◌-◌, Bool-cases, arith,
}
use ae_ro_go.Base.Int.{ℤ, pos, negsuc, ◌+ℤ◌, ◌-ℤ◌, ◌≤ℤ◌, ltb_ℤ, pos_part, neg_part, int_laws}
use ae_ro_go.Netstat.Ports.{find_one_loop, rounds, find_one_available_port}

-- What a search of `n` ports from `port` on must answer.
data Answers (probe : ℤ → Bool) (n : ℕ) (port : ℤ) : Option ℤ → Type 0 where
  free :
      (p : ℤ)
      → probe p ≡ true
      → port ≤ℤ p
      → p +ℤ pos 1 ≤ℤ port +ℤ pos n
      → ((q : ℤ) → port ≤ℤ q → q +ℤ pos 1 ≤ℤ p → probe q ≡ false)
      → Answers probe n port (some p)
  full :
      ((q : ℤ) → port ≤ℤ q → q +ℤ pos 1 ≤ℤ port +ℤ pos n → probe q ≡ false)
      → Answers probe n port none

pub lt_or_eq_ℤ : (a b : ℤ) → a ≤ℤ b → (a +ℤ pos 1 ≤ℤ b) ⊎ (a ≡ b)
unfolding ◌+ℤ◌
lt_or_eq_ℤ a b h = ground arith

find_one_loop-Answers :
    (probe : ℤ → Bool) (n : ℕ) (port : ℤ) → Answers probe n port (find_one_loop probe n port)
unfolding find_one_loop
find_one_loop-Answers probe zero port = full (λ q h k. absurd (omega int_laws))
find_one_loop-Answers probe (suc n) port = elim (Bool-cases (probe port)) [
  | inl t ↦ rw t (free port t (omega arith) (omega int_laws) (λ q h k. absurd (omega int_laws)))
  | inr f ↦ rw f (later probe n port f (find_one_loop-Answers probe n (port +ℤ pos 1)))
]
  where
    busy :
        (probe : ℤ → Bool) (port q : ℤ)
        → probe port ≡ false
        → (port +ℤ pos 1 ≤ℤ q → probe q ≡ false)
        → port ≤ℤ q
        → probe q ≡ false
    busy probe port q f rest h = elim (lt_or_eq_ℤ port q h) [
      | inl lt ↦ rest lt
      | inr e ↦ rw (← e) f
    ]

    later :
        (probe : ℤ → Bool) (n : ℕ) (port : ℤ) {o : Option ℤ}
        → probe port ≡ false
        → Answers probe n (port +ℤ pos 1) o
        → Answers probe (suc n) port o
    later probe n port f (free p t lo hi first) =
        free p t (omega int_laws) (omega int_laws)
          (λ q h k. busy probe port q f (λ lt. first q lt k) h)
    later probe n port f (full none_free) =
        full (λ q h k. busy probe port q f (λ lt. none_free q lt (omega int_laws)) h)

pub one_part : (a : ℤ) → (pos_part a ≡ 0) ⊎ (neg_part a ≡ 0)
one_part (pos n) = inr refl
one_part (negsuc n) = inl refl

-- The rounds reach up to the end of the range.
rounds_below :
    (start end q : ℤ) → start ≤ℤ q → q +ℤ pos 1 ≤ℤ start +ℤ pos (rounds start end) → q ≤ℤ end
unfolding rounds
rounds_below start end q h k = omega (int_laws, one_part (end +ℤ pos 1 -ℤ start))

rounds_reach : (start end q : ℤ) → q ≤ℤ end → q +ℤ pos 1 ≤ℤ start +ℤ pos (rounds start end)
unfolding rounds
rounds_reach start end q k = omega (int_laws, one_part (end +ℤ pos 1 -ℤ start))

-- The first port of a range that can be listened on, or none.
pub data FirstFree (probe : ℤ → Bool) (start end : ℤ) : Option ℤ → Type 0 where
  found :
      (p : ℤ)
      → probe p ≡ true
      → start ≤ℤ p
      → p ≤ℤ end
      → ((q : ℤ) → start ≤ℤ q → q +ℤ pos 1 ≤ℤ p → probe q ≡ false)
      → FirstFree probe start end (some p)
  all_busy : ((q : ℤ) → start ≤ℤ q → q ≤ℤ end → probe q ≡ false) → FirstFree probe start end none

Answers-FirstFree :
    (probe : ℤ → Bool) (start end : ℤ) {o : Option ℤ}
    → Answers probe (rounds start end) start o
    → FirstFree probe start end o
Answers-FirstFree probe start end (free p t lo hi first) =
    found p t lo (rounds_below start end p lo hi) first
Answers-FirstFree probe start end (full none_free) =
    all_busy (λ q h k. none_free q h (rounds_reach start end q k))

-- `FindOneAvailablePort` returns the least port of the range that can be listened on, both ends
-- included, and an error only if there is none, if the range ends below the largest int.
pub find_one_available_port-FirstFree :
    (probe : ℤ → Bool) (start end : ℤ)
    → ltb_ℤ end (pos (2 ^ 63 - 1)) ≡ true
    → (o : Option ℤ) × (find_one_available_port probe start end ≡ some o)
      × FirstFree probe start end o
unfolding find_one_available_port
find_one_available_port-FirstFree probe start end low =
    let answer = find_one_loop-Answers probe (rounds start end) start in
    elim (Option-cases (find_one_loop probe (rounds start end) start)) [
      | inl n ↦ (
        none,
        rw (find_one_available_port, n, low) refl,
        Answers-FirstFree probe start end (rw n at answer),
      )
      | inr (p, e) ↦ (
        some p,
        rw (find_one_available_port, e) refl,
        Answers-FirstFree probe start end (rw e at answer),
      )
    ]
