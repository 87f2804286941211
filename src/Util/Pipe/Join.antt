-- ===== src/Util/Pipe/Join.antt =====
-- util/pipe/pipe.go: `pipe` and `Join`, two goroutines that copy between two connections, a statement
-- at a time. `io.CopyBuffer` takes what has come in on one connection, a read at a time, to the other.
use ae_ro_go.Base.{ℕ, ◌+◌, Bool, true, false, List, [], ◌∷◌, ◌++◌, Bytes, length, ◌&&◌}

-- One end: what its peer sends, read by read, up to its end of file, and what was written to it.
pub record Conn : Type 0 where
  pub incoming : List Bytes
  pub out : Bytes
  pub closed : Bool

-- The statements of `pipe` from `CopyBuffer` on: the deferred calls run from the last to the first.
pub data Phase : Type 0 where
  copying stopped waited_for from_closed finished : Phase

pub record Copier : Type 0 where
  pub phase : Phase
  pub written : ℕ

-- How the network answers the next read and write: as they come, or one of them fails.
pub data Answer : Type 0 where
  works fails : Answer

-- A copier with the connections `to` and `from` of its call.
pub record Half : Type 0 where
  pub copier : Copier
  pub to : Conn
  pub from : Conn

abbrev pub stop : Half → Half
stop h = record h { copier = record h.copier { phase = stopped } }

-- What a read and the write of it come to, if `from` is closed, if `to` is, and with what has come in.
unfoldable pub carry : Bool → Bool → List Bytes → Half → Half
carry true to_closed cs h = stop h
carry false to_closed [] h = stop h
carry false true (c ∷ cs) h = stop (record h { from = record h.from { incoming = cs } })
carry false false (c ∷ cs) h = record h {
  copier = record h.copier { written = h.copier.written + length c };
  to = record h.to { out = h.to.out ++ c };
  from = record h.from { incoming = cs };
}

-- One read of `CopyBuffer` and the write of it; an end of file, a closed connection or a failure ends
-- the loop.
unfoldable pub copy_once : Answer → Half → Half
unfolding carry
copy_once fails h = stop h
copy_once works h = carry h.from.closed h.to.closed h.from.incoming h

-- The next statement of `pipe`, by the phase: the copying, `wait.Done()`, `from.Close()`, `to.Close()`.
unfoldable pub advance_at : Phase → Answer → Half → Half
advance_at copying a h = copy_once a h
advance_at stopped a h = record h { copier = record h.copier { phase = waited_for } }
advance_at waited_for a h = record h {
  copier = record h.copier { phase = from_closed };
  from = record h.from { closed = true };
}
advance_at from_closed a h = record h {
  copier = record h.copier { phase = finished };
  to = record h.to { closed = true };
}
advance_at finished a h = h

abbrev pub advance : Answer → Half → Half
advance a h = advance_at h.copier.phase a h

-- The two goroutines that `Join` starts: `wn` is counted to the left, `rn` to the right.
pub record Joined : Type 0 where
  pub left : Conn
  pub right : Conn
  pub to_left : Copier
  pub to_right : Copier

abbrev pub started : Copier
started = record { phase = copying; written = 0 }

unfoldable pub join : Conn → Conn → Joined
join left right = record { left = left; right = right; to_left = started; to_right = started }

pub data Side : Type 0 where
  leftward rightward : Side

-- `pipe(left, right, …)` and `pipe(right, left, …)`.
abbrev pub half : Side → Joined → Half
half leftward j = record { copier = j.to_left; to = j.left; from = j.right }
half rightward j = record { copier = j.to_right; to = j.right; from = j.left }

abbrev pub put_half : Side → Half → Joined → Joined
put_half leftward h j = record j { to_left = h.copier; left = h.to; right = h.from }
put_half rightward h j = record j { to_right = h.copier; right = h.to; left = h.from }

unfoldable pub step : Side → Answer → Joined → Joined
step side a j = put_half side (advance a (half side j)) j

-- Any interleaving of the two.
unfoldable pub run_join : List (Side × Answer) → Joined → Joined
run_join [] j = j
run_join ((side, a) ∷ moves) j = run_join moves (step side a j)

abbrev pub has_waited : Phase → Bool
has_waited copying = false
has_waited stopped = false
has_waited _ = true

-- `wait.Wait()` is over, and `Join` returns its counts.
unfoldable pub returned : Joined → Bool
returned j = has_waited j.to_left.phase && has_waited j.to_right.phase
