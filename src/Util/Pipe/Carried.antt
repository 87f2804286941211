-- ===== src/Util/Pipe/Carried.antt =====
-- util/pipe/pipe.go: what the two copiers of `Join` carry, and how they end.
use ae_ro_go.Base.{
  ◌+◌, ◌≡◌, refl, sym, ap, ◌∙◌, Bool, true, false, List, [], ◌∷◌, ◌++◌, append_assoc, Bytes, length,
  length-append, flat,
}
use mathlib.Core.Path.{subst}
use ae_ro_go.Util.Pipe.Join.{
  Conn, Phase, copying, stopped, waited_for, from_closed, finished, Copier, Answer, works, fails,
  Half, stop, carry, copy_once, advance_at, advance, Joined, join, Side, leftward, rightward, half,
  step, run_join,
}

abbrev pub FromShut : Phase → Bool → Type 0
FromShut from_closed closed = closed ≡ true
FromShut finished closed = closed ≡ true
FromShut _ closed = Unit

abbrev pub ToShut : Phase → Bool → Type 0
ToShut finished closed = closed ≡ true
ToShut _ closed = Unit

-- A copier has lost nothing as long as it copies.
abbrev pub Lost : Phase → Bytes → Type 0
Lost copying lost = lost ≡ []
Lost _ lost = Unit

-- What holds between a copier, the stream `all` that it is to carry, and its connections.
pub record Sound (all : Bytes) (h : Half) : Type 0 where
  pub lost : Bytes
  pub spelled : all ≡ h.to.out ++ (lost ++ flat h.from.incoming)
  pub counted : h.copier.written ≡ length h.to.out
  pub kept : Lost h.copier.phase lost
  pub from_shut : FromShut h.copier.phase h.from.closed
  pub to_shut : ToShut h.copier.phase h.to.closed

stop-Sound : (all : Bytes) (h : Half) → Sound all h → Sound all (stop h)
stop-Sound all h v = record {
  lost = v.lost;
  spelled = v.spelled;
  counted = v.counted;
  kept = tt;
  from_shut = tt;
  to_shut = tt;
}

carry-Sound :
    (all : Bytes) (fc tc : Bool) (cs : List Bytes) (h : Half)
    → h.copier.phase ≡ copying
    → h.from.incoming ≡ cs
    → Sound all h
    → Sound all (carry fc tc cs h)
unfolding carry
carry-Sound all true tc cs h p e v = stop-Sound all h v
carry-Sound all false tc [] h p e v = stop-Sound all h v
carry-Sound all false true (c ∷ cs) h p e v = record {
  lost = v.lost ++ c;
  spelled = v.spelled ∙ rw e (ap (λ s. h.to.out ++ s) (sym (append_assoc v.lost c (flat cs))));
  counted = v.counted;
  kept = tt;
  from_shut = tt;
  to_shut = tt;
}
carry-Sound all false false (c ∷ cs) h p e v =
    let none_lost : v.lost ≡ [] = subst (λ q. Lost q v.lost) p v.kept in
    record {
      lost = [];
      spelled = v.spelled ∙ rw (none_lost, e) (sym (append_assoc h.to.out c (flat cs)));
      counted = rw (v.counted, length-append) refl;
      kept = subst (λ q. Lost q []) (sym p) refl;
      from_shut = subst (λ q. FromShut q h.from.closed) (sym p) tt;
      to_shut = subst (λ q. ToShut q h.to.closed) (sym p) tt;
    }

advance_at-Sound :
    (all : Bytes) (q : Phase) (a : Answer) (h : Half)
    → h.copier.phase ≡ q
    → Sound all h
    → Sound all (advance_at q a h)
unfolding advance_at copy_once
advance_at-Sound all copying fails h p v = stop-Sound all h v
advance_at-Sound all copying works h p v =
    carry-Sound all h.from.closed h.to.closed h.from.incoming h p refl v
advance_at-Sound all stopped a h p v = record {
  lost = v.lost;
  spelled = v.spelled;
  counted = v.counted;
  kept = tt;
  from_shut = tt;
  to_shut = tt;
}
advance_at-Sound all waited_for a h p v = record {
  lost = v.lost;
  spelled = v.spelled;
  counted = v.counted;
  kept = tt;
  from_shut = refl;
  to_shut = tt;
}
advance_at-Sound all from_closed a h p v = record {
  lost = v.lost;
  spelled = v.spelled;
  counted = v.counted;
  kept = tt;
  from_shut = subst (λ r. FromShut r h.from.closed) p v.from_shut;
  to_shut = refl;
}
advance_at-Sound all finished a h p v = v

-- What a copier leaves alone: the other direction of its connections. Nothing that is closed is
-- opened again.
pub record Aside (h h' : Half) : Type 0 where
  pub to_incoming : h'.to.incoming ≡ h.to.incoming
  pub from_out : h'.from.out ≡ h.from.out
  pub to_stays : h.to.closed ≡ true → h'.to.closed ≡ true
  pub from_stays : h.from.closed ≡ true → h'.from.closed ≡ true

copied :
    (h : Half) (c : Copier) (out : Bytes) (cs : List Bytes)
    → Aside h (record h {
      copier = c;
      to = record h.to { out = out };
      from = record h.from { incoming = cs };
    })
copied h c out cs = record {
  to_incoming = refl;
  from_out = refl;
  to_stays = λ e. e;
  from_stays = λ e. e;
}

stop-Aside : (h : Half) → Aside h (stop h)
stop-Aside h = copied h (record h.copier { phase = stopped }) h.to.out h.from.incoming

carry-Aside : (fc tc : Bool) (cs : List Bytes) (h : Half) → Aside h (carry fc tc cs h)
unfolding carry
carry-Aside true tc cs h = stop-Aside h
carry-Aside false tc [] h = stop-Aside h
carry-Aside false true (c ∷ cs) h = copied h (record h.copier { phase = stopped }) h.to.out cs
carry-Aside false false (c ∷ cs) h =
    copied h (record h.copier { written = h.copier.written + length c }) (h.to.out ++ c) cs

pub advance_at-Aside : (q : Phase) (a : Answer) (h : Half) → Aside h (advance_at q a h)
unfolding advance_at copy_once
advance_at-Aside copying fails h = stop-Aside h
advance_at-Aside copying works h = carry-Aside h.from.closed h.to.closed h.from.incoming h
advance_at-Aside stopped a h =
    copied h (record h.copier { phase = waited_for }) h.to.out h.from.incoming
advance_at-Aside waited_for a h = record {
  to_incoming = refl;
  from_out = refl;
  to_stays = λ e. e;
  from_stays = λ e. refl;
}
advance_at-Aside from_closed a h = record {
  to_incoming = refl;
  from_out = refl;
  to_stays = λ e. refl;
  from_stays = λ e. e;
}
advance_at-Aside finished a h = copied h h.copier h.to.out h.from.incoming

FromShut-stays : (q : Phase) (b b' : Bool) → (b ≡ true → b' ≡ true) → FromShut q b → FromShut q b'
FromShut-stays from_closed b b' f h = f h
FromShut-stays finished b b' f h = f h
FromShut-stays _ b b' f h = tt

ToShut-stays : (q : Phase) (b b' : Bool) → (b ≡ true → b' ≡ true) → ToShut q b → ToShut q b'
ToShut-stays finished b b' f h = f h
ToShut-stays _ b b' f h = tt

-- A copier stays sound while the other one moves.
other-Sound :
    (all : Bytes) (c : Copier) (h h' : Half)
    → Aside h h'
    → Sound all (record { copier = c; to = h.from; from = h.to })
    → Sound all (record { copier = c; to = h'.from; from = h'.to })
other-Sound all c h h' k v = record {
  lost = v.lost;
  spelled = rw (k.to_incoming, k.from_out) v.spelled;
  counted = rw k.from_out v.counted;
  kept = v.kept;
  from_shut = FromShut-stays c.phase h.to.closed h'.to.closed k.to_stays v.from_shut;
  to_shut = ToShut-stays c.phase h.from.closed h'.from.closed k.from_stays v.to_shut;
}

pub record Both (to_left to_right : Bytes) (j : Joined) : Type 0 where
  pub on_left : Sound to_left (half leftward j)
  pub on_right : Sound to_right (half rightward j)

step-Both :
    (l r : Bytes) (side : Side) (a : Answer) (j : Joined) → Both l r j → Both l r (step side a j)
unfolding step
step-Both l r leftward a j v = record {
  on_left = advance_at-Sound l j.to_left.phase a (half leftward j) refl v.on_left;
  on_right =
      other-Sound r j.to_right (half leftward j) (advance a (half leftward j))
        (advance_at-Aside j.to_left.phase a (half leftward j)) v.on_right;
}
step-Both l r rightward a j v = record {
  on_left =
      other-Sound l j.to_left (half rightward j) (advance a (half rightward j))
        (advance_at-Aside j.to_right.phase a (half rightward j)) v.on_left;
  on_right = advance_at-Sound r j.to_right.phase a (half rightward j) refl v.on_right;
}

pub run_join-Both :
    (l r : Bytes) (moves : List (Side × Answer)) (j : Joined)
    → Both l r j
    → Both l r (run_join moves j)
unfolding run_join
run_join-Both l r [] j v = v
run_join-Both l r ((side, a) ∷ moves) j v =
    run_join-Both l r moves (step side a j) (step-Both l r side a j v)

pub join-Both :
    (left right : Conn)
    → left.out ≡ []
    → right.out ≡ []
    → Both (flat right.incoming) (flat left.incoming) (join left right)
unfolding join
join-Both left right l r = record {
  on_left = record {
    lost = [];
    spelled = rw l refl;
    counted = rw l refl;
    kept = refl;
    from_shut = tt;
    to_shut = tt;
  };
  on_right = record {
    lost = [];
    spelled = rw r refl;
    counted = rw r refl;
    kept = refl;
    from_shut = tt;
    to_shut = tt;
  };
}

-- What a copier has carried of a stream: the start of it, in order, then come the bytes that it has
-- lost, none while it copies, and those that it has not read; and it has counted what it has carried.
abbrev pub CarriedOf : Bytes → Copier → Bytes → List Bytes → Type 0
CarriedOf all c out unread =
    (lost : Bytes) × (all ≡ out ++ (lost ++ flat unread))
    × Lost c.phase lost
    × (c.written ≡ length out)

-- However the two copiers of `Join` take turns and whatever fails, at any time each connection has got
-- the start of what the other one sent, in order and nothing else; no byte of it is missing while the
-- copier still copies; and the counts are those of the bytes that were carried.
pub join-CarriedOf :
    (left right : Conn) (moves : List (Side × Answer))
    → left.out ≡ []
    → right.out ≡ []
    → let j = run_join moves (join left right) in
      CarriedOf (flat right.incoming) j.to_left j.left.out j.right.incoming
      × CarriedOf (flat left.incoming) j.to_right j.right.out j.left.incoming
join-CarriedOf left right moves l r =
    let v = run_join-Both _ _ moves (join left right) (join-Both left right l r) in
    (
      (v.on_left.lost, v.on_left.spelled, v.on_left.kept, v.on_left.counted),
      (v.on_right.lost, v.on_right.spelled, v.on_right.kept, v.on_right.counted),
    )
