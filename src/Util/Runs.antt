-- ===== src/Util/Runs.antt =====
-- Runs of the helpers of util/ at concrete inputs.
mod Joined
use ae_ro_go.Base.{
  ℕ, suc, ◌+◌, ◌*◌, ◌≤◌, ◌≡◌, ◌≢◌, ◌↔◌, refl, true, List, [], ◌∷◌, Bytes, codes, some, length, All,
  ltb, none, bytes_eq,
}
use ae_ro_go.Base.Int.{pos, negsuc, ◌+ℤ◌, ◌≤ℤ◌, wrap64}
use ae_ro_go.Base.Decimal.{itoa}
use ae_ro_go.Base.Dict.{lookup, insert, delete}
use ae_ro_go.Util.Pipe.{wrap, calls, turns, pending, started, close_once}
use ae_ro_go.Base.{replicate, if◌then◌else◌, ◌&&◌}
use ae_ro_go.Util.Rotate.{
  RotatingFile, Io, Files, rename, open_file, backup, shift_backups, make_room, stat, rotate,
  rotating, append_to, write_file, write,
}
use ae_ro_go.Util.Rotate.Backups.{IsFull, write_rotates}
use ae_ro_go.Base.Eq.{contains, ℕ_eq}
use ae_ro_go.Util.Seq.{map_indexed, filter_slice, de_duplicate}
use ae_ro_go.Util.Text.{split_x, split, cut, has_prefix, join_x, join_x-split_x}
use ae_ro_go.Util.Legal.{check_legal, check_legal_iff, IsWordByte}
use ae_ro_go.Util.Uid.{rand_str, IsLetter}
use ae_ro_go.Util.Uid.Letters.{rand_str_lem, usable}
use ae_ro_go.Util.Ema.{zero_ema, new_ema, update, updates, updates-zero_ema}
use ae_ro_go.Util.Whole.{whole}

abbrev numbers : List ℕ
numbers = 3 ∷ 1 ∷ 3 ∷ 2 ∷ 1 ∷ []

map_indexed_run : map_indexed numbers (λ i n. i + n) ≡ 3 ∷ 2 ∷ 5 ∷ 5 ∷ 5 ∷ []
unfolding map_indexed
map_indexed_run = refl

filter_run : filter_slice numbers (λ n. ltb 1 n) ≡ 3 ∷ 3 ∷ 2 ∷ []
unfolding filter_slice
filter_run = refl

split_run : split_x (codes "a,,b") (codes ",") ≡ codes "a" ∷ [] ∷ codes "b" ∷ []
unfolding split_x split cut has_prefix
split_run = refl

new_ema_run : (update whole (new_ema whole 0) (pos 7)).avg ≡ pos 7
unfolding new_ema update
new_ema_run = refl

de_duplicate_run : de_duplicate numbers ≡ 3 ∷ 1 ∷ 2 ∷ []
unfolding de_duplicate contains
de_duplicate_run = refl

check_legal_iff_example : (check_legal (codes "dev_1") ≡ true) ↔ All IsWordByte (codes "dev_1")
check_legal_iff_example = check_legal_iff (codes "dev_1")

abbrev zeros : Bytes
zeros = 0 ∷ 0 ∷ 0 ∷ 0 ∷ 0 ∷ 0 ∷ 0 ∷ 0 ∷ []

abbrev log_file : RotatingFile
log_file = record { file = true; file_name = codes "a"; max_bytes = pos 4; backup_count = pos 2 }

abbrev calm : Io
calm = record { stat_ok = true; open_ok = true; fails_after = none }

abbrev logs : Files
logs = (codes "a", codes "12") ∷ (codes "a-1", codes "0") ∷ []

log_file-IsFull : IsFull calm (codes "34") (codes "12") log_file logs
unfolding lookup bytes_eq
log_file-IsFull = record {
  up = refl;
  stats = refl;
  opens = refl;
  writes = refl;
  backs_up = refl;
  holds = refl;
  reached = unfold wrap64 ◌+ℤ◌ in refl;
}

write_rotates_example :
    let (r, rf', files') = write calm (codes "34") log_file logs in
    (r ≡ some 2)
    × (lookup (codes "a") files' ≡ some (codes "34"))
    × (lookup (backup (codes "a") 1) files' ≡ some (codes "12"))
    × ((i : ℕ) (c : Bytes)
        → 1 ≤ i
        → pos (suc i) ≤ℤ pos 2
        → lookup (backup (codes "a") i) logs ≡ some c
        → lookup (backup (codes "a") (suc i)) files' ≡ some c)
    × ((path : Bytes)
        → path ≢ codes "a"
        → ((i : ℕ) → 1 ≤ i → pos i ≤ℤ pos 2 → path ≢ backup (codes "a") i)
        → lookup path files' ≡ lookup path logs)
write_rotates_example = write_rotates calm (codes "34") (codes "12") log_file logs log_file-IsFull

-- The first backup becomes the second one.
write_twice : lookup (codes "a-2") (write calm (codes "34") log_file logs).2 ≡ some (codes "0")
unfolding write write_file rotating stat rotate make_room shift_backups rename backup itoa open_file
    append_to wrap64 ◌+ℤ◌ lookup insert delete bytes_eq
write_twice = refl

close_once_example :
    let (c, places) = turns (0 ∷ 2 ∷ 0 ∷ 1 ∷ 2 ∷ []) (wrap true, replicate 3 calls) in
    (c.ori_closes ≤ 1) × (c.ori_closes + pending places ≡ (if started places && true then 1 else 0))
close_once_example = close_once 3 (0 ∷ 2 ∷ 0 ∷ 1 ∷ 2 ∷ []) true
