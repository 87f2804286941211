-- ===== src/Util/Pipe/Ends.antt =====
-- util/pipe/pipe.go: the end of `Join`: both copiers come to it, and the first one cuts off the other.
use ae_ro_go.Base.{
  ℕ, suc, ◌+◌, ◌-◌, ◌≤◌, ◌≡◌, refl, ap, Bool, true, false, List, [], ◌∷◌, Bytes, length, arith,
}
use mathlib.Core.Path.{subst}
use ae_ro_go.Util.Pipe.Join.{
  Conn, Phase, copying, stopped, waited_for, from_closed, finished, Answer, works, fails, Half,
  carry, copy_once, advance_at, Joined, join, Side, leftward, rightward, half, step, run_join,
  returned,
}
use ae_ro_go.Util.Pipe.Carried.{advance_at-Aside, ToShut, run_join-Both, join-Both}

-- The moves that a copier still needs.
abbrev rank : Phase → List Bytes → ℕ
rank copying cs = 4 + length cs
rank stopped cs = 3
rank waited_for cs = 2
rank from_closed cs = 1
rank finished cs = 0

abbrev rank_of : Half → ℕ
rank_of h = rank h.copier.phase h.from.incoming

carry-rank :
    (fc tc : Bool) (cs : List Bytes) (h : Half)
    → h.copier.phase ≡ copying
    → rank_of (carry fc tc cs h) ≤ 3 + length cs
unfolding carry
carry-rank true tc cs h p = omega arith
carry-rank false tc [] h p = omega arith
carry-rank false true (c ∷ cs) h p = omega arith
carry-rank false false (c ∷ cs) h p = rw p (omega arith)

advance_at-rank :
    (q : Phase) (a : Answer) (h : Half)
    → h.copier.phase ≡ q
    → rank_of (advance_at q a h) ≤ rank q h.from.incoming - 1
unfolding advance_at copy_once
advance_at-rank copying fails h p = omega arith
advance_at-rank copying works h p =
    omega (arith, carry-rank h.from.closed h.to.closed h.from.incoming h p)
advance_at-rank stopped a h p = omega arith
advance_at-rank waited_for a h p = omega arith
advance_at-rank from_closed a h p = omega arith
advance_at-rank finished a h p = rw p (omega arith)

-- The moves of a copier in a series.
abbrev pub moves_of : Side → List (Side × Answer) → ℕ
moves_of side [] = 0
moves_of leftward ((leftward, a) ∷ moves) = suc (moves_of leftward moves)
moves_of leftward ((rightward, a) ∷ moves) = moves_of leftward moves
moves_of rightward ((leftward, a) ∷ moves) = moves_of rightward moves
moves_of rightward ((rightward, a) ∷ moves) = suc (moves_of rightward moves)

own_step-rank :
    (side : Side) (a : Answer) (j : Joined)
    → rank_of (half side (step side a j)) ≤ rank_of (half side j) - 1
unfolding step
own_step-rank leftward a j = advance_at-rank j.to_left.phase a (half leftward j) refl
own_step-rank rightward a j = advance_at-rank j.to_right.phase a (half rightward j) refl

left_kept :
    (a : Answer) (j : Joined)
    → rank_of (half leftward (step rightward a j)) ≡ rank_of (half leftward j)
unfolding step
left_kept a j =
    ap (rank j.to_left.phase) (advance_at-Aside j.to_right.phase a (half rightward j)).to_incoming

right_kept :
    (a : Answer) (j : Joined)
    → rank_of (half rightward (step leftward a j)) ≡ rank_of (half rightward j)
unfolding step
right_kept a j =
    ap (rank j.to_right.phase) (advance_at-Aside j.to_left.phase a (half leftward j)).to_incoming

-- Each move of a copier brings it nearer to its end, and no move of the other takes it away.
run_join-rank :
    (side : Side) (moves : List (Side × Answer)) (j : Joined)
    → rank_of (half side (run_join moves j)) ≤ rank_of (half side j) - moves_of side moves
unfolding run_join
run_join-rank side [] j = omega arith
run_join-rank leftward ((leftward, a) ∷ moves) j =
    omega (arith, run_join-rank leftward moves (step leftward a j), own_step-rank leftward a j)
run_join-rank leftward ((rightward, a) ∷ moves) j =
    omega (arith, run_join-rank leftward moves (step rightward a j), left_kept a j)
run_join-rank rightward ((leftward, a) ∷ moves) j =
    omega (arith, run_join-rank rightward moves (step leftward a j), right_kept a j)
run_join-rank rightward ((rightward, a) ∷ moves) j =
    omega (arith, run_join-rank rightward moves (step rightward a j), own_step-rank rightward a j)

at_end : (q : Phase) (cs : List Bytes) → rank q cs ≤ 0 → q ≡ finished
at_end copying cs h = absurd (omega arith)
at_end stopped cs h = absurd (omega arith)
at_end waited_for cs h = absurd (omega arith)
at_end from_closed cs h = absurd (omega arith)
at_end finished cs h = refl

-- Once each copier has had as many moves as its stream has reads, and four more, in whatever order,
-- `Join` has returned, both copiers have come to their end, and both connections are closed.
pub join_ends :
    (left right : Conn) (moves : List (Side × Answer))
    → left.out ≡ []
    → right.out ≡ []
    → 4 + length right.incoming ≤ moves_of leftward moves
    → 4 + length left.incoming ≤ moves_of rightward moves
    → let j = run_join moves (join left right) in
      (returned j ≡ true)
      × (j.to_left.phase ≡ finished)
      × (j.to_right.phase ≡ finished)
      × (j.left.closed ≡ true)
      × (j.right.closed ≡ true)
unfolding returned join
join_ends left right moves l r hl hr =
    let j = run_join moves (join left right) in
    let v = run_join-Both _ _ moves (join left right) (join-Both left right l r) in
    let el : j.to_left.phase ≡ finished =
      at_end _ j.right.incoming (omega (arith, run_join-rank leftward moves (join left right))) in
    let er : j.to_right.phase ≡ finished =
      at_end _ j.left.incoming (omega (arith, run_join-rank rightward moves (join left right))) in
    (
      rw (el, er) refl,
      el,
      er,
      subst (λ q. ToShut q j.left.closed) el v.on_left.to_shut,
      subst (λ q. ToShut q j.right.closed) er v.on_right.to_shut,
    )
