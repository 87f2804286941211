-- ===== src/Client/Agent/Race.antt =====
-- client/agent.go: two goroutines in `Close` at once, a statement at a time.
use ae_ro_go.Base.{
  ℕ, suc, ◌≢◌, ◌∙◌, ◌≤◌, ◌≡◌, refl, ◌⊎◌, inl, inr, not, Bool-cases, Bool, true, false, List, [],
  ◌∷◌, if◌then◌else◌, arith,
}
use ae_ro_go.Base.Chan.{ok_or_blocked, Outcome, done, panicked, close}
use ae_ro_go.Client.Agent.{Agent, close_agent}
use ae_ro_go.Client.Agent.Laws.{Inv}

-- How far a call of `Close` has come: in front of the test, past it, past the flag, past the first and
-- the second `close`, or back.
pub data Place : Type 0 where
  calls tested flagged recv_closed send_closed back : Place

-- The next statement of a call.
unfoldable pub close_step : Agent → Place → Outcome (Agent × Place)
close_step a calls = if a.closed then done (a, back) else done (a, tested)
close_step a tested = done (record a { closed = true }, flagged)
close_step a flagged =
    ok_or_blocked (close a.recv_chan) λ r. done (record a { recv_chan = r }, recv_closed)
close_step a recv_closed =
    ok_or_blocked (close a.send_chan) λ s. done (record a { send_chan = s }, send_closed)
close_step a send_closed = done (record a { conn_closed = true }, back)
close_step a back = done (a, back)

-- Two calls by turns: `true` is the second one's turn.
unfoldable pub two_calls : List Bool → Agent → Place → Place → Outcome (Agent × Place × Place)
two_calls [] a p q = done (a, p, q)
two_calls (false ∷ turns) a p q = ok_or_blocked (close_step a p) λ r. two_calls turns r.0 r.1 q
two_calls (true ∷ turns) a p q = ok_or_blocked (close_step a q) λ r. two_calls turns r.0 p r.1

-- The turns of each call.
abbrev pub turns_of : Bool → List Bool → ℕ
turns_of call [] = 0
turns_of call (t ∷ turns) =
    let rest = turns_of call turns in if (if t then call else not call) then suc rest else rest

-- How many turns a call past the test has left until it has closed the first channel.
abbrev turns_left : Place → ℕ
turns_left tested = 2
turns_left flagged = 1
turns_left _ = 0

-- Once the first channel is closed, any next statement panics or leaves it closed.
step_cases :
    (a : Agent) (p : Place)
    → a.recv_chan.closed ≡ true
    → (close_step a p ≡ panicked)
      ⊎ ((b : Agent) × (q : Place) × (close_step a p ≡ done (b, q)) × (b.recv_chan.closed ≡ true))
unfolding close_step close
step_cases a calls h = elim (Bool-cases a.closed) [
  | inl t ↦ inr (a, back, rw (t, close_step) refl, h)
  | inr f ↦ inr (a, tested, rw (f, close_step) refl, h)
]
step_cases a tested h = inr (_, flagged, refl, h)
step_cases a flagged h = inl (ground arith)
step_cases a recv_closed h = elim (Bool-cases a.send_chan.closed) [
  | inl t ↦ inl (ground arith)
  | inr f ↦
      inr (
        record a { send_chan = record a.send_chan { closed = true } },
        send_closed,
        ground arith,
        h,
      )
]
step_cases a send_closed h = inr (_, back, refl, h)
step_cases a back h = inr (_, back, refl, h)

-- Then the other call panics when it comes to close that channel, if nothing has panicked before.
second_panics :
    (turns : List Bool) (a : Agent) (p q : Place)
    → a.recv_chan.closed ≡ true
    → 1 ≤ turns_left q
    → turns_left q ≤ turns_of true turns
    → two_calls turns a p q ≡ panicked
unfolding two_calls close_step close
second_panics [] a p q h lo hi = absurd (omega arith)
second_panics (false ∷ turns) a p q h lo hi = elim (step_cases a p h) [
  | inl e ↦ rw (e, two_calls) refl
  | inr (b, p', e, h') ↦ rw (e, two_calls) (second_panics turns b p' q h' lo hi)
]
second_panics (true ∷ turns) a p tested h lo hi =
    second_panics turns (record a { closed = true }) p flagged h (omega arith) (omega arith)
second_panics (true ∷ turns) a p flagged h lo hi = rw h refl
second_panics (true ∷ turns) a p _ h lo hi = absurd (omega arith)

first_panics :
    (turns : List Bool) (a : Agent) (p q : Place)
    → a.recv_chan.closed ≡ true
    → 1 ≤ turns_left p
    → turns_left p ≤ turns_of false turns
    → two_calls turns a p q ≡ panicked
unfolding two_calls close_step close
first_panics [] a p q h lo hi = absurd (omega arith)
first_panics (true ∷ turns) a p q h lo hi = elim (step_cases a q h) [
  | inl e ↦ rw (e, two_calls) refl
  | inr (b, q', e, h') ↦ rw (e, two_calls) (first_panics turns b p q' h' lo hi)
]
first_panics (false ∷ turns) a tested q h lo hi =
    first_panics turns (record a { closed = true }) flagged q h (omega arith) (omega arith)
first_panics (false ∷ turns) a flagged q h lo hi = rw h refl
first_panics (false ∷ turns) a _ q h lo hi = absurd (omega arith)

-- Two calls that are past the test, with the first channel still open.
both_panic :
    (turns : List Bool) (a : Agent) (p q : Place)
    → a.recv_chan.closed ≡ false
    → 1 ≤ turns_left p
    → 1 ≤ turns_left q
    → turns_left p ≤ turns_of false turns
    → turns_left q ≤ turns_of true turns
    → two_calls turns a p q ≡ panicked
unfolding two_calls close_step close
both_panic [] a p q h lp lq hp hq = absurd (omega arith)
both_panic (false ∷ turns) a tested q h lp lq hp hq =
    both_panic turns (record a { closed = true }) flagged q h (omega arith) lq (omega arith) hq
both_panic (false ∷ turns) a flagged q h lp lq hp hq = rw h (
    second_panics turns (record a { recv_chan = record a.recv_chan { closed = true } }) recv_closed
      q refl lq hq)
both_panic (false ∷ turns) a _ q h lp lq hp hq = absurd (omega arith)
both_panic (true ∷ turns) a p tested h lp lq hp hq =
    both_panic turns (record a { closed = true }) p flagged h lp (omega arith) hp (omega arith)
both_panic (true ∷ turns) a p flagged h lp lq hp hq = rw h (
    first_panics turns (record a { recv_chan = record a.recv_chan { closed = true } }) p recv_closed
      refl lp hp)
both_panic (true ∷ turns) a p _ h lp lq hp hq = absurd (omega arith)

-- An agent whose `Close` has come past the flag.
abbrev closing : Agent → Place → Agent
closing a flagged = record a { closed = true }
closing a recv_closed = record a { closed = true; recv_chan = record a.recv_chan { closed = true } }
closing a send_closed = record a {
  closed = true;
  recv_chan = record a.recv_chan { closed = true };
  send_chan = record a.send_chan { closed = true };
}
closing a _ = record a {
  closed = true;
  recv_chan = record a.recv_chan { closed = true };
  send_chan = record a.send_chan { closed = true };
  conn_closed = true;
}

-- The turns that a call has left until it is back, if another one has set the flag before its test.
abbrev turns_back : Place → ℕ
turns_back flagged = 3
turns_back recv_closed = 2
turns_back send_closed = 1
turns_back calls = 1
turns_back tested = 4
turns_back back = 0

closing-closed : (a : Agent) (p : Place) → (closing a p).closed ≡ true
closing-closed a calls = refl
closing-closed a tested = refl
closing-closed a flagged = refl
closing-closed a recv_closed = refl
closing-closed a send_closed = refl
closing-closed a back = refl

-- The first call is past the flag; the second one is in front of the test, or back.
one_closes :
    (turns : List Bool) (a : Agent) (p q : Place)
    → a.recv_chan.closed ≡ false
    → a.send_chan.closed ≡ false
    → p ≢ calls
    → turns_back p ≤ 3
    → turns_back q ≤ 1
    → q ≢ send_closed
    → turns_back p ≤ turns_of false turns
    → turns_back q ≤ turns_of true turns
    → two_calls turns (closing a p) p q ≡ done (closing a back, back, back)
unfolding two_calls close_step close
one_closes [] a back back r s n lp lq m hp hq = refl
one_closes [] a back calls r s n lp lq m hp hq = absurd (omega arith)
one_closes (true ∷ turns) a p calls r s n lp lq m hp hq =
    let set = closing-closed a p in
    rw set (one_closes turns a p back r s n lp (omega arith) (λ e. cc) hp (omega arith))
one_closes (true ∷ turns) a p back r s n lp lq m hp hq =
    one_closes turns a p back r s n lp lq m hp (omega arith)
one_closes (false ∷ turns) a flagged q r s n lp lq m hp hq =
    rw r (one_closes turns a recv_closed q r s (λ e. cc) (omega arith) lq m (omega arith) hq)
one_closes (false ∷ turns) a recv_closed q r s n lp lq m hp hq =
    rw s (one_closes turns a send_closed q r s (λ e. cc) (omega arith) lq m (omega arith) hq)
one_closes (false ∷ turns) a send_closed q r s n lp lq m hp hq =
    one_closes turns a back q r s (λ e. cc) (omega arith) lq m (omega arith) hq
one_closes (false ∷ turns) a back q r s n lp lq m hp hq =
    one_closes turns a back q r s n lp lq m (omega arith) hq
one_closes turns a calls q r s n lp lq m hp hq = absurd (n refl)
one_closes turns a p send_closed r s n lp lq m hp hq = absurd (m refl)
one_closes turns a _ _ r s n lp lq m hp hq = absurd (omega arith)

tests_open : (a : Agent) → a.closed ≡ false → close_step a calls ≡ done (a, tested)
unfolding close_step
tests_open a e = ground arith

sets_flag : (a : Agent) → close_step a tested ≡ done (closing a flagged, flagged)
unfolding close_step
sets_flag a = refl

closes_open :
    (a : Agent)
    → a.closed ≡ false
    → a.recv_chan.closed ≡ false
    → a.send_chan.closed ≡ false
    → close_agent a ≡ done (closing a back)
unfolding close_agent close
closes_open a e r s = ground arith

-- Two calls of `Close` of an open agent that keeps the invariant take turns in any order, with three
-- turns or more for the first call and two or more for the second behind the first two turns. If the
-- first call has set the flag before the second one tests it, neither panics and both together do
-- what one `Close` does; if both pass the test before one sets the flag, they panic.
pub two_calls_race :
    (a : Agent) (turns : List Bool)
    → Inv a
    → a.closed ≡ false
    → 3 ≤ turns_of false turns
    → 2 ≤ turns_of true turns
    → ((a' : Agent) × (close_agent a ≡ done a')
        × (two_calls (false ∷ false ∷ turns) a calls calls ≡ done (a', back, back)))
      × (two_calls (false ∷ true ∷ turns) a calls calls ≡ panicked)
      × (two_calls (true ∷ false ∷ turns) a calls calls ≡ panicked)
unfolding two_calls
two_calls_race a turns v open_yet hf ht =
    let r : a.recv_chan.closed ≡ false = v.recv_closed ∙ open_yet in
    let s : a.send_chan.closed ≡ false = v.send_closed ∙ open_yet in
    let passes = tests_open a open_yet in
    let both : two_calls turns a tested tested ≡ panicked =
      both_panic turns a tested tested r (omega arith) (omega arith) (omega arith) (omega arith) in
    (
      (
        closing a back,
        closes_open a open_yet r s,
        rw (passes, sets_flag a)
            (one_closes turns a flagged calls r s (λ e. cc) (omega arith) (omega arith) (λ e. cc) hf
              (omega arith)),
      ),
      rw (passes, passes) both,
      rw (passes, passes) both,
    )
