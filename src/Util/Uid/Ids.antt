-- ===== src/Util/Uid/Ids.antt =====
-- util/uid.go: what `RandStr8Base62` writes.
use ae_ro_go.Base.{
  ℕ, zero, suc, ◌/◌, ◌%◌, ◌≤◌, ◌<◌, ◌≡◌, refl, sym, ap, ◌∙◌, [], ◌∷◌, ◌++◌, append_assoc, Bytes,
  All, All-append, length, length-append, drop, set, length-set, drop-set, get_or-All, drop_all,
  append-nil, leb, Bool-cases, inl, inr, arith,
}
use ae_ro_go.Util.Uid.{base62, at, folded, rand_str8_loop, rand_str8, IsAlnum}

base62-IsAlnum : All IsAlnum base62
base62-IsAlnum = omega arith

at-IsAlnum : (idx : ℕ) → idx < 62 → IsAlnum (at base62 idx)
at-IsAlnum idx h = get_or-All IsAlnum base62 idx 0 base62-IsAlnum (omega arith)

folded-lt : (idx i : ℕ) → folded idx i < 62
unfolding folded
folded-lt idx i = ground arith

-- What the loop writes, in front of the part of the buffer that it does not reach.
record Written (n : ℕ) (run : Bytes → Bytes) : Type 0 where
  text : Bytes
  sized : length text ≡ n
  alnum : All IsAlnum text
  placed : (buf8 : Bytes) → n ≤ length buf8 → run buf8 ≡ text ++ drop n buf8

Written-ext :
    {n : ℕ} (run run' : Bytes → Bytes)
    → ((b : Bytes) → run b ≡ run' b)
    → Written n run
    → Written n run'
Written-ext run run' same w = record {
  text = w.text;
  sized = w.sized;
  alnum = w.alnum;
  placed = λ buf8 h. sym (same buf8) ∙ w.placed buf8 h;
}

Written-suc :
    (i c : ℕ) (run : Bytes → Bytes)
    → IsAlnum c
    → Written i run
    → Written (suc i) (λ buf8. run (set buf8 i c))
Written-suc i c run ok w = record {
  text = w.text ++ c ∷ [];
  sized = rw (length-append w.text (c ∷ []), w.sized) (omega arith);
  alnum = All-append IsAlnum w.text (c ∷ []) w.alnum (ok, tt);
  placed = λ buf8 h.
      w.placed (set buf8 i c) (omega (arith, length-set buf8 i c))
      ∙ ap (◌++◌ w.text) (drop-set buf8 i c h)
      ∙ sym (append_assoc w.text (c ∷ []) (drop (suc i) buf8));
}

rand_str8_loop-Written : (n remain cache : ℕ) → Written n (rand_str8_loop n remain cache)
unfolding rand_str8_loop
rand_str8_loop-Written zero remain cache = record {
  text = [];
  sized = refl;
  alnum = tt;
  placed = λ buf8 h. refl;
}
rand_str8_loop-Written (suc i) zero cache =
    Written-suc i _ _ (at-IsAlnum _ (folded-lt (cache % 64) i))
      (rand_str8_loop-Written i zero (cache / 64))
rand_str8_loop-Written (suc i) (suc remain) cache = elim (Bool-cases (leb 62 (cache % 64))) [
  | inl t ↦ Written-ext _ _ (λ b. rw t) (rand_str8_loop-Written (suc i) remain (cache / 64))
  | inr f ↦
      Written-ext _ _ (λ b. rw f)
        (Written-suc i _ _ (at-IsAlnum (cache % 64) (ground arith))
          (rand_str8_loop-Written i (suc remain) (cache / 64)))
]

-- For a buffer of eight bytes, what `RandStr8Base62` writes is eight letters and digits, and is the
-- same whatever eight bytes were in the buffer before.
pub rand_str8_lem :
    (int63 : ℕ) (buf8 old : Bytes)
    → length buf8 ≡ 8
    → length old ≡ 8
    → (length (rand_str8 int63 buf8) ≡ 8)
      × All IsAlnum (rand_str8 int63 buf8)
      × (rand_str8 int63 buf8 ≡ rand_str8 int63 old)
unfolding rand_str8
rand_str8_lem int63 buf8 old h h' = (rw whole w.sized, rw whole w.alnum, whole ∙ sym whole')
  where
    w : Written 8 (rand_str8_loop 8 2 int63)
    w = rand_str8_loop-Written 8 2 int63

    whole : rand_str8_loop 8 2 int63 buf8 ≡ w.text
    whole =
        w.placed buf8 (omega arith)
        ∙ ap (◌++◌ w.text) (drop_all 8 buf8 (omega arith))
        ∙ append-nil w.text

    whole' : rand_str8_loop 8 2 int63 old ≡ w.text
    whole' =
        w.placed old (omega arith)
        ∙ ap (◌++◌ w.text) (drop_all 8 old (omega arith))
        ∙ append-nil w.text
