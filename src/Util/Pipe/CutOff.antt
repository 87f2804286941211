-- ===== src/Util/Pipe/CutOff.antt =====
-- util/pipe/pipe.go: the first copier of `Join` that comes to its end cuts the other one off.
use ae_ro_go.Base.{ℕ, ◌≡◌, refl, ◌∙◌, ◌⊎◌, inl, inr, Bool, true, false, List, [], ◌∷◌, Bytes}
use ae_ro_go.Util.Pipe.Join.{
  Phase, copying, stopped, waited_for, from_closed, finished, Answer, works, fails, Half, carry,
  copy_once, advance_at, Joined, Side, leftward, rightward, half, step, run_join,
}
use ae_ro_go.Util.Pipe.Carried.{advance_at-Aside}

carry_frozen :
    (fc tc : Bool) (cs : List Bytes) (h : Half)
    → (fc ≡ true) ⊎ (tc ≡ true)
    → ((carry fc tc cs h).to.out ≡ h.to.out)
      × ((carry fc tc cs h).copier.written ≡ h.copier.written)
unfolding carry
carry_frozen true tc cs h e = (refl, refl)
carry_frozen false tc [] h e = (refl, refl)
carry_frozen false true (c ∷ cs) h e = (refl, refl)
carry_frozen false false (c ∷ cs) h (inl e) = cc
carry_frozen false false (c ∷ cs) h (inr e) = cc

advance_at_frozen :
    (q : Phase) (a : Answer) (h : Half)
    → (h.from.closed ≡ true) ⊎ (h.to.closed ≡ true)
    → ((advance_at q a h).to.out ≡ h.to.out)
      × ((advance_at q a h).copier.written ≡ h.copier.written)
unfolding advance_at copy_once
advance_at_frozen copying fails h e = (refl, refl)
advance_at_frozen copying works h e = carry_frozen h.from.closed h.to.closed h.from.incoming h e
advance_at_frozen stopped a h e = (refl, refl)
advance_at_frozen waited_for a h e = (refl, refl)
advance_at_frozen from_closed a h e = (refl, refl)
advance_at_frozen finished a h e = (refl, refl)

-- What both connections got and what was counted for them.
abbrev pub tallies : Joined → Bytes × Bytes × ℕ × ℕ
tallies j = (j.left.out, j.right.out, j.to_left.written, j.to_right.written)

step_frozen :
    (side : Side) (a : Answer) (j : Joined)
    → (j.left.closed ≡ true) ⊎ (j.right.closed ≡ true)
    → (tallies (step side a j) ≡ tallies j)
      × (((step side a j).left.closed ≡ true) ⊎ ((step side a j).right.closed ≡ true))
unfolding step
step_frozen leftward a j e =
    let h = half leftward j in
    let k = advance_at-Aside j.to_left.phase a h in
    let (out, count) = advance_at_frozen j.to_left.phase a h (swap e) in
    (
      rw (out, count, k.from_out) refl,
      elim e [ inl shut ↦ inl (k.to_stays shut) | inr shut ↦ inr (k.from_stays shut) ],
    )
  where
    swap :
        (j.left.closed ≡ true) ⊎ (j.right.closed ≡ true)
        → (j.right.closed ≡ true) ⊎ (j.left.closed ≡ true)
    swap (inl x) = inr x
    swap (inr x) = inl x
step_frozen rightward a j e =
    let h = half rightward j in
    let k = advance_at-Aside j.to_right.phase a h in
    let (out, count) = advance_at_frozen j.to_right.phase a h e in
    (
      rw (out, count, k.from_out) refl,
      elim e [ inl shut ↦ inl (k.from_stays shut) | inr shut ↦ inr (k.to_stays shut) ],
    )

-- As soon as one of the two connections is closed, as the first copier that ends closes both, no more
-- bytes are carried in either direction, whatever has come in there.
pub run_join_cut_off :
    (moves : List (Side × Answer)) (j : Joined)
    → (j.left.closed ≡ true) ⊎ (j.right.closed ≡ true)
    → tallies (run_join moves j) ≡ tallies j
unfolding run_join
run_join_cut_off [] j e = refl
run_join_cut_off ((side, a) ∷ moves) j e =
    let (same, still) = step_frozen side a j e in
    run_join_cut_off moves (step side a j) still ∙ same
