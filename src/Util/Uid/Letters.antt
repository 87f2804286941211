-- ===== src/Util/Uid/Letters.antt =====
-- util/uid.go: the rounds of `RandStr`, and what it writes.
use ae_ro_go.Base.{
  ℕ, zero, suc, ◌+◌, ◌-◌, ◌*◌, ◌/◌, ◌%◌, ◌≤◌, ◌<◌, ◌≡◌, refl, ◌∙◌, Bool, true, false, ◌||◌, some,
  Bytes, All, length, replicate, length-replicate, drop, set, length-set, drop-set, get_or-All,
  drop_all, ltb, ◌==◌, if◌then◌else◌, Bool-cases, ltb→lt, inl, inr, arith,
}
use ae_ro_go.Util.Uid.{letter_bytes, at, idx_max, rand_str_loop, rand_str, IsLetter}

letter_bytes-IsLetter : All IsLetter letter_bytes
letter_bytes-IsLetter = omega arith

at-IsLetter : (idx : ℕ) → idx < 52 → IsLetter (at letter_bytes idx)
at-IsLetter idx h = get_or-All IsLetter letter_bytes idx 0 letter_bytes-IsLetter (omega arith)

-- A letter is among the next `remain` groups of six bits.
unfoldable pub usable : ℕ → ℕ → Bool
usable zero cache = false
usable (suc remain) cache = ltb (cache % 64) 52 || usable remain (cache / 64)

abbrev bonus : Bool → ℕ
bonus b = if b then 10 else 0

nonzero : (j : ℕ) → (suc j == 0) ≡ false
nonzero j = ground arith

pred_suc : (j : ℕ) → suc j - 1 ≡ j
pred_suc j = omega arith

unusable :
    (j cache : ℕ) → ltb (cache % 64) 52 ≡ false → usable (suc j) cache ≡ usable j (cache / 64)
unfolding usable
unusable j cache f = rw f

-- With a letter in every draw, each draw costs at most ten rounds and pays for one letter.
rand_str_loop_total :
    (src : ℕ → ℕ) (fuel i cache remain k : ℕ) (b : Bytes)
    → ((j : ℕ) → usable idx_max (src j) ≡ true)
    → 10 * i + remain ≤ fuel + bonus (usable remain cache)
    → remain ≤ 10
    → (s : Bytes) × (rand_str_loop src fuel i cache remain k b ≡ some s)
unfolding rand_str_loop
rand_str_loop_total src zero zero cache remain k b fair h r = (b, refl)
rand_str_loop_total src (suc fuel) zero cache remain k b fair h r = (b, refl)
rand_str_loop_total src zero (suc i) cache zero k b fair h r = absurd (unfold usable in omega arith)
rand_str_loop_total src zero (suc i) cache (suc j) k b fair h r = absurd (ground arith)
rand_str_loop_total src (suc fuel) (suc i) cache zero k b fair h r =
    elim (Bool-cases (ltb (src k % 64) 52)) [
      | inl t ↦
          let (s, p) =
            rand_str_loop_total src fuel i (src k / 64) 9 (k + 1)
              (set b i (at letter_bytes (src k % 64))) fair (unfold usable in ground arith)
              (omega arith) in
          (s, rw t p)
      | inr f ↦
          let left : usable 9 (src k / 64) ≡ true = unfold usable in rw f at (fair k) in
          let (s, p) =
            rand_str_loop_total src fuel (suc i) (src k / 64) 9 (k + 1) b fair
              (rw left (unfold usable in omega arith)) (omega arith) in
          (s, rw f p)
    ]
rand_str_loop_total src (suc fuel) (suc i) cache (suc j) k b fair h r =
    elim (Bool-cases (ltb (cache % 64) 52)) [
      | inl t ↦
          let (s, p) =
            rand_str_loop_total src fuel i (cache / 64) (suc j - 1) k
              (set b i (at letter_bytes (cache % 64))) fair (ground arith) (omega arith) in
          (s, rw (nonzero j, t) p)
      | inr f ↦
          let (s, p) =
            rand_str_loop_total src fuel (suc i) (cache / 64) (suc j - 1) k b fair
              (rw (pred_suc j, ← unusable j cache f) (omega arith)) (omega arith) in
          (s, rw (nonzero j, f) p)
    ]

-- The positions from `i` on hold letters, and so does the whole at the end.
rand_str_loop-IsLetter :
    (src : ℕ → ℕ) (fuel i cache remain k : ℕ) (b s : Bytes)
    → i ≤ length b
    → All IsLetter (drop i b)
    → rand_str_loop src fuel i cache remain k b ≡ some s
    → (length s ≡ length b) × All IsLetter s
unfolding rand_str_loop
rand_str_loop-IsLetter src zero zero cache remain k b s h l e = ground arith
rand_str_loop-IsLetter src (suc fuel) zero cache remain k b s h l e = ground arith
rand_str_loop-IsLetter src zero (suc i) cache remain k b s h l e = cc
rand_str_loop-IsLetter src (suc fuel) (suc i) cache remain k b s h l e =
    elim (Bool-cases (ltb (now % 64) 52)) [
      | inl t ↦
          let c = at letter_bytes (now % 64) in
          let (sized, letters) =
            rand_str_loop-IsLetter src fuel i _ _ _ (set b i c) s (omega (arith, length-set b i c))
              (rw (drop-set b i c h) (at-IsLetter (now % 64) (ltb→lt _ _ t), l)) (rw t at e) in
          (sized ∙ length-set b i c, letters)
      | inr f ↦ rand_str_loop-IsLetter src fuel (suc i) _ _ _ b s h l (rw f at e)
    ]
  where
    now : ℕ
    now = if remain == 0 then src k else cache

-- `RandStr(n)` returns, and what it returns is `n` letters, if every draw holds a letter among its
-- ten groups of six bits.
pub rand_str_lem :
    (src : ℕ → ℕ) (n : ℕ)
    → ((j : ℕ) → usable idx_max (src j) ≡ true)
    → (s : Bytes) × (rand_str src (10 * n + 10) n ≡ some s) × (length s ≡ n) × All IsLetter s
unfolding rand_str
rand_str_lem src n fair =
    let zeros : Bytes = replicate n 0 in
    let (s, p) =
      rand_str_loop_total src (10 * n + 10) n (src 0) 10 1 zeros fair (omega arith) (omega arith) in
    let (sized, letters) =
      rand_str_loop-IsLetter src (10 * n + 10) n (src 0) 10 1 zeros s
        (omega (arith, length-replicate {0} n zero))
        (rw (drop_all n zeros (omega (arith, length-replicate {0} n zero))) tt) p in
    (s, p, sized ∙ length-replicate n _, letters)
