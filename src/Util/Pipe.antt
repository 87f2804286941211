-- ===== src/Util/Pipe.antt =====
-- util/pipe/pipe.go: the close-once wrapper `ReadWriteCloser`, with calls of `Close` from any number of
-- goroutines.
pub mod Join
pub mod Carried
pub mod Ends
pub mod CutOff
use ae_ro_go.Base.{
  ℕ, zero, suc, ◌+◌, ◌≤◌, ◌≡◌, refl, sym, ap, ◌∙◌, inl, inr, Bool, true, false, ◌&&◌, ◌||◌, List,
  [], ◌∷◌, none, some, Option-cases, get_elem?, set, replicate, if◌then◌else◌, arith,
}

-- `ori_closes` counts the calls of `ori.Close`.
pub record ReadWriteCloser : Type 0 where
  pub has_ori : Bool
  pub closed : Bool
  pub ori_closes : ℕ

-- `WrapReadWriteCloser`
unfoldable pub wrap : Bool → ReadWriteCloser
wrap has_ori = record { has_ori = has_ori; closed = false; ori_closes = 0 }

-- How far a call of `Close` has come: in front of the lock, past it with the call of `ori.Close` to
-- make, or back.
pub data Place : Type 0 where
  calls closing back : Place

-- The part of `Close` under the lock, and the part behind it.
unfoldable pub close_step : ReadWriteCloser → Place → ReadWriteCloser × Place
close_step c calls =
    if c.closed
    then (c, back)
    else (record c { closed = true }, if c.has_ori then closing else back)
close_step c closing = (record c { ori_closes = suc c.ori_closes }, back)
close_step c back = (c, back)

-- The next step of the call that has the turn.
unfoldable pub turn : ℕ → ReadWriteCloser × List Place → ReadWriteCloser × List Place
turn i (c, places) = elim (get_elem? places i) [
  | none ↦ (c, places)
  | some p ↦ ((close_step c p).0, set places i (close_step c p).1)
]

unfoldable pub turns : List ℕ → ReadWriteCloser × List Place → ReadWriteCloser × List Place
turns [] s = s
turns (i ∷ is) s = turns is (turn i s)

-- The calls of `ori.Close` that are still to be made.
abbrev weight : Place → ℕ
weight calls = 0
weight closing = 1
weight back = 0

unfoldable pub pending : List Place → ℕ
pending [] = 0
pending (p ∷ places) = weight p + pending places

pending-set :
    (places : List Place) (i : ℕ) {p : Place} (q : Place)
    → get_elem? places i ≡ some p
    → pending (set places i q) + weight p ≡ pending places + weight q
unfolding pending
pending-set [] i q h = cc
pending-set (x ∷ places) zero {p} q h = let same : weight x ≡ weight p = ap weight cc in omega arith
pending-set (x ∷ places) (suc i) q h = let rest = pending-set places i q h in omega arith

abbrev is_started : Place → Bool
is_started calls = false
is_started closing = true
is_started back = true

-- Whether a call has been past the lock.
unfoldable pub started : List Place → Bool
started [] = false
started (p ∷ places) = is_started p || started places

started-set :
    (places : List Place) (i : ℕ) {p : Place} (q : Place)
    → get_elem? places i ≡ some p
    → is_started q ≡ true
    → started (set places i q) ≡ true
unfolding started
started-set [] i q h e = cc
started-set (x ∷ places) zero q h e = ground arith
started-set (x ∷ places) (suc i) q h e = ground (arith, started-set places i q h e)

started-at :
    (places : List Place) (i : ℕ) {p : Place}
    → get_elem? places i ≡ some p
    → is_started p ≡ true
    → started places ≡ true
unfolding started
started-at [] i h e = cc
started-at (x ∷ places) zero {p} h e =
    let same : is_started x ≡ is_started p = ap is_started cc in ground arith
started-at (x ∷ places) (suc i) h e = ground (arith, started-at places i h e)

-- The flag is set once a call has been past the lock; made and pending calls of `ori.Close` are then
-- one, if there is something to close.
record Counted (has_ori : Bool) (s : ReadWriteCloser × List Place) : Type 0 where
  pub same_ori : s.0.has_ori ≡ has_ori
  pub flag : s.0.closed ≡ started s.1
  pub sum : s.0.ori_closes + pending s.1 ≡ (if s.0.closed && s.0.has_ori then 1 else 0)

step-Counted :
    (i : ℕ) (p : Place) (has_ori : Bool) (s : ReadWriteCloser × List Place)
    → Counted has_ori s
    → get_elem? s.1 i ≡ some p
    → Counted has_ori ((close_step s.0 p).0, set s.1 i (close_step s.0 p).1)
unfolding close_step
step-Counted i calls has_ori (c, places) v e = record {
  same_ori = ground (arith, v.same_ori);
  flag = ground (arith, started-set places i closing e refl, started-set places i back e refl);
  sum =
      let to_back = pending-set places i back e in
      let to_closing = pending-set places i closing e in ground (arith, v.sum);
}
step-Counted i closing has_ori (c, places) v e = record {
  same_ori = v.same_ori;
  flag = v.flag ∙ started-at places i e refl ∙ sym (started-set places i back e refl);
  sum = let next = pending-set places i back e in ground (arith, v.sum);
}
step-Counted i back has_ori (c, places) v e = record {
  same_ori = v.same_ori;
  flag = v.flag ∙ started-at places i e refl ∙ sym (started-set places i back e refl);
  sum = let next = pending-set places i back e in ground (arith, v.sum);
}

turn-Counted :
    (i : ℕ) (has_ori : Bool) (s : ReadWriteCloser × List Place)
    → Counted has_ori s
    → Counted has_ori (turn i s)
unfolding turn
turn-Counted i has_ori (c, places) v = elim (Option-cases (get_elem? places i)) [
  | inl e ↦ rw (e, turn) v
  | inr (p, e) ↦ rw (e, turn) (step-Counted i p has_ori (c, places) v e)
]

turns-Counted :
    (is : List ℕ) (has_ori : Bool) (s : ReadWriteCloser × List Place)
    → Counted has_ori s
    → Counted has_ori (turns is s)
unfolding turns
turns-Counted [] has_ori s v = v
turns-Counted (i ∷ is) has_ori s v =
    turns-Counted is has_ori (turn i s) (turn-Counted i has_ori s v)

pending-calls : (n : ℕ) → pending (replicate n calls) ≡ 0
unfolding pending
pending-calls zero = refl
pending-calls (suc n) = let rest = pending-calls n in omega arith

started-calls : (n : ℕ) → started (replicate n calls) ≡ false
unfolding started
started-calls zero = refl
started-calls (suc n) = started-calls n

-- However the calls of `Close` from any number of goroutines take turns, `ori.Close` is called at most
-- once; and the calls of it that were made and those that are about to be made are one together as
-- soon as a call of `Close` has been past the lock, if there is something to close, and none else.
pub close_once :
    (n : ℕ) (is : List ℕ) (has_ori : Bool)
    → let (c, places) = turns is (wrap has_ori, replicate n calls) in
      (c.ori_closes ≤ 1)
      × (c.ori_closes + pending places ≡ (if started places && has_ori then 1 else 0))
unfolding wrap
close_once n is has_ori =
    let s = turns is (wrap has_ori, replicate n calls) in
    let v =
      turns-Counted is has_ori (wrap has_ori, replicate n calls)
        (record {
          same_ori = refl;
          flag = sym (started-calls n);
          sum = let none_yet = pending-calls n in omega arith;
        }) in
    (ground (arith, v.sum), v.sum ∙ rw (v.flag, v.same_ori) refl)
