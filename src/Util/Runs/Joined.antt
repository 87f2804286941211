-- ===== src/Util/Runs/Joined.antt =====
-- Runs of `Join` at concrete inputs.
use ae_ro_go.Base.{◌≡◌, refl, inl, true, false, List, [], ◌∷◌, codes, flat, arith}
use ae_ro_go.Util.Pipe.Join.{
  Conn, Answer, works, Side, leftward, rightward, Joined, join, run_join, returned, finished, step,
  advance_at, copy_once, carry,
}
use ae_ro_go.Util.Pipe.Carried.{CarriedOf, join-CarriedOf}
use ae_ro_go.Util.Pipe.Ends.{join_ends}
use ae_ro_go.Util.Pipe.CutOff.{tallies, run_join_cut_off}

-- A request in two reads, and its answer.
abbrev browser : Conn
browser = record { incoming = codes "GET " ∷ codes "/" ∷ []; out = []; closed = false }

abbrev service : Conn
service = record { incoming = codes "200" ∷ []; out = []; closed = false }

abbrev moves : List (Side × Answer)
moves =
    (rightward, works)
    ∷ (rightward, works)
    ∷ (leftward, works)
    ∷ (leftward, works)
    ∷ (leftward, works)
    ∷ (rightward, works)
    ∷ (leftward, works)
    ∷ (leftward, works)
    ∷ (rightward, works)
    ∷ (rightward, works)
    ∷ (rightward, works)
    ∷ []

carried_run : (run_join moves (join browser service)).left.out ≡ codes "200"
unfolding run_join step advance_at copy_once carry join
carried_run = refl

join-CarriedOf_example :
    let j = run_join moves (join browser service) in
    CarriedOf (flat service.incoming) j.to_left j.left.out j.right.incoming
    × CarriedOf (flat browser.incoming) j.to_right j.right.out j.left.incoming
join-CarriedOf_example = join-CarriedOf browser service moves refl refl

join_ends_example :
    let j = run_join moves (join browser service) in
    (returned j ≡ true)
    × (j.to_left.phase ≡ finished)
    × (j.to_right.phase ≡ finished)
    × (j.left.closed ≡ true)
    × (j.right.closed ≡ true)
join_ends_example = join_ends browser service moves refl refl (omega arith) (omega arith)

-- The browser's side is closed before the answer is read.
abbrev cut : Joined
cut = record (join browser service) { left = record browser { closed = true } }

run_join_cut_off_example : tallies (run_join moves cut) ≡ tallies cut
run_join_cut_off_example = run_join_cut_off moves cut (inl refl)
