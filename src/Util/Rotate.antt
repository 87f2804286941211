-- ===== src/Util/Rotate.antt =====
-- util/zlog/writer.go: `RotatingFile`, over the files of a directory tree.
pub mod Backups
use ae_ro_go.Base.{
  ◌≡◌, arith, ℕ, zero, suc, ◌+◌, Bool, true, false, List, [], ◌∷◌, ◌++◌, Bytes, Option, none, some,
  length, take, if◌then◌else◌, not, ◌&&◌,
}
use ae_ro_go.Base.Int.{ℤ, pos, negsuc, ◌+ℤ◌, wrap64, ltb_ℤ, leb_ℤ}
use ae_ro_go.Base.Decimal.{itoa}
use ae_ro_go.Base.Dict.{Dict, lookup, insert, delete}

-- The open file is the one of the name: it is closed before the name goes to another one. `file` says
-- whether it is open, which it is not when it could not be made again.
pub record RotatingFile : Type 0 where
  pub file : Bool
  pub file_name : Bytes
  pub max_bytes : ℤ
  pub backup_count : ℤ

-- The contents of the files, by path. No other process touches them.
abbrev pub Files : Type 0
Files = Dict Bytes

-- What the system answers: whether `Stat` and `OpenFile` succeed, and after how many bytes a `Write`
-- fails, if it does.
pub record Io : Type 0 where
  pub stat_ok : Bool
  pub open_ok : Bool
  pub fails_after : Option ℕ

-- `os.Rename` within a directory, whose error is not looked at: without an old file nothing happens,
-- and a file with the new name is replaced.
unfoldable pub rename : Bytes → Bytes → Files → Files
rename old new files = elim (lookup old files) [
  | none ↦ files
  | some content ↦ insert new content (delete old files)
]

-- `os.OpenFile` with O_CREATE and O_APPEND.
unfoldable pub open_file : Bytes → Files → Files
open_file name files = elim (lookup name files) [
  | none ↦ insert name [] files
  | some content ↦ files
]

-- `"%s-%d"`
unfoldable pub backup : Bytes → ℕ → Bytes
backup name i = name ++ b'-' ∷ itoa (pos i)

-- The loop of `rotating`, from `i` down to 1.
unfoldable pub shift_backups : Bytes → ℕ → Files → Files
shift_backups name zero files = files
shift_backups name (suc i) files =
    shift_backups name i (rename (backup name (suc i)) (backup name (suc (suc i))) files)

-- `NewRotatingFile`, once the directory is made; `none` is an error.
unfoldable pub new_rotating_file : Io → Bytes → ℤ → ℤ → Files → Option (RotatingFile × Files)
new_rotating_file io name bytes count files =
    if leb_ℤ bytes (pos 0)
    then none
    else if not io.open_ok
    then none
    else some (
      record { file = true; file_name = name; max_bytes = bytes; backup_count = count },
      open_file name files,
    )

-- The size of the open file, as `Stat` gives it.
unfoldable pub stat : Io → RotatingFile → Files → Option ℕ
stat io rf files =
    if rf.file && io.stat_ok
    then elim (lookup rf.file_name files) [ none ↦ some 0 | some content ↦ some (length content) ]
    else none

-- `backupCount - 1`, where the loop starts.
abbrev pub below : ℤ → ℕ
below (pos (suc n)) = n
below _ = 0

-- The renames.
unfoldable pub make_room : Bytes → ℕ → Files → Files
make_room name n files = rename name (backup name 1) (shift_backups name n files)

-- The renames and the new file.
unfoldable pub rotate : Io → RotatingFile → Files → RotatingFile × Files
rotate io rf files =
    let moved = make_room rf.file_name (below rf.backup_count) files in
    if io.open_ok
    then (record rf { file = true }, open_file rf.file_name moved)
    else (record rf { file = false }, moved)

-- `rotating`, before `n` bytes are written.
unfoldable pub rotating : Io → ℕ → RotatingFile → Files → RotatingFile × Files
rotating io n rf files =
    if ltb_ℤ rf.backup_count (pos 1) then (rf, files) else elim (stat io rf files) [
      | none ↦ (rf, files)
      | some size ↦
          if ltb_ℤ (wrap64 (pos size +ℤ pos n)) rf.max_bytes
          then (rf, files)
          else rotate io rf files
    ]

-- Bytes at the end of the open file.
unfoldable pub append_to : Bytes → Bytes → Files → Files
append_to name p files = elim (lookup name files) [
  | none ↦ files
  | some content ↦ insert name (content ++ p) files
]

unfoldable pub write_file : Io → Bytes → RotatingFile × Files → Option ℕ × RotatingFile × Files
write_file io p (rf, files) = if not rf.file then (none, rf, files) else elim io.fails_after [
  | none ↦ (some (length p), rf, append_to rf.file_name p files)
  | some n ↦ (none, rf, append_to rf.file_name (take n p) files)
]

-- `Write`: the number of bytes, or an error.
unfoldable pub write : Io → Bytes → RotatingFile → Files → Option ℕ × RotatingFile × Files
write io p rf files = write_file io p (rotating io (length p) rf files)

-- `Close`: whether it went well, which the system answers for an open file. A file that is not open
-- is an error.
unfoldable pub close : Bool → RotatingFile → Bool × RotatingFile
close close_ok rf = (rf.file && close_ok, record rf { file = false })

-- A `Write` after `Close` is an error and changes no file: the log is not rotated or made again.
write-close :
    (io : Io) (ok : Bool) (p : Bytes) (rf : RotatingFile) (files : Files)
    → write io p (close ok rf).1 files ≡ (none, (close ok rf).1, files)
unfolding write write_file rotating stat close
write-close io ok p rf files = ground arith
