-- ===== src/Util/Rotate/Backups.antt =====
-- util/zlog/writer.go: where the contents of the log and of its backups are after a rotation.
use ae_ro_go.Base.{
  ℕ, zero, suc, ◌≤◌, ◌≡◌, ◌≢◌, refl, sym, ◌∙◌, inl, inr, true, false, [], ◌∷◌, ◌++◌, Bytes, none,
  some, length, same_or_not, Option-cases, arith,
}
use mathlib.Core.Path.{subst}
use ae_ro_go.Base.Int.{ℤ, pos, negsuc, ◌+ℤ◌, ◌≤ℤ◌, wrap64, ltb_ℤ}
use ae_ro_go.Base.Decimal.{itoa, utoa}
use ae_ro_go.Base.Decimal.RoundTrip.{utoa_inj}
use ae_ro_go.Base.Dict.{
  lookup, insert, delete, lookup-insert_self, lookup-insert_ne, lookup-delete_self,
  lookup-delete_ne,
}
use ae_ro_go.Util.Rotate.{
  RotatingFile, Files, Io, below, rename, open_file, backup, shift_backups, stat, rotate, rotating,
  make_room, append_to, write_file, write,
}

append_cancel : (s t u : Bytes) → s ++ t ≡ s ++ u → t ≡ u
append_cancel [] t u e = e
append_cancel (c ∷ s) t u e = append_cancel s t u cc

longer : (s t : Bytes) → s ≢ s ++ b'-' ∷ t
longer [] t e = cc
longer (c ∷ s) t e = longer s t cc

backup_inj : (name : Bytes) (i j : ℕ) → backup name i ≡ backup name j → i ≡ j
unfolding backup itoa
backup_inj name i j e =
    let tail : b'-' ∷ utoa i ≡ b'-' ∷ utoa j =
      append_cancel name (b'-' ∷ utoa i) (b'-' ∷ utoa j) e in
    utoa_inj i j cc

backup-ne-name : (name : Bytes) (i : ℕ) → name ≢ backup name i
unfolding backup
backup-ne-name name i e = longer name (itoa (pos i)) e

rename-moves :
    (old new : Bytes) (files : Files) {c : Bytes}
    → lookup old files ≡ some c
    → lookup new (rename old new files) ≡ some c
unfolding rename
rename-moves old new files h = rw (h, rename, lookup-insert_self) refl

rename-keeps :
    (old new path : Bytes) (files : Files)
    → path ≢ old
    → path ≢ new
    → lookup path (rename old new files) ≡ lookup path files
unfolding rename
rename-keeps old new path files n m = elim (Option-cases (lookup old files)) [
  | inl e ↦ rw (e, rename) refl
  | inr (c, e) ↦
      rw (e, rename)
        (lookup-insert_ne new path c (delete old files) (λ q. m (sym q))
          ∙ lookup-delete_ne old path files (λ q. n (sym q)))
]

-- A backup above the ones that are renamed, or any other file.
shift_backups-keeps :
    (name path : Bytes) (k : ℕ) (files : Files)
    → ((i : ℕ) → 1 ≤ i → i ≤ suc k → path ≢ backup name i)
    → lookup path (shift_backups name k files) ≡ lookup path files
unfolding shift_backups
shift_backups-keeps name path zero files h = refl
shift_backups-keeps name path (suc k) files h =
    shift_backups-keeps name path k _ (λ i lo hi. h i lo (omega arith))
    ∙ rename-keeps (backup name (suc k)) (backup name (suc (suc k))) path files
        (h (suc k) (omega arith) (omega arith)) (h (suc (suc k)) (omega arith) (omega arith))

shift_backups-moves :
    (name : Bytes) (k i : ℕ) (files : Files) {c : Bytes}
    → 1 ≤ i
    → i ≤ k
    → lookup (backup name i) files ≡ some c
    → lookup (backup name (suc i)) (shift_backups name k files) ≡ some c
unfolding shift_backups
shift_backups-moves name zero i files lo hi h = absurd (omega arith)
shift_backups-moves name (suc k) i files {c} lo hi h = elim (same_or_not i (suc k)) [
  | inl e ↦
      let h' = subst (λ x. lookup (backup name x) files ≡ some c) e h in
      subst
        (λ x.
          lookup (backup name (suc x))
            (shift_backups name k (rename (backup name (suc k)) (backup name (suc (suc k))) files))
          ≡ some c)
        (sym e)
        (shift_backups-keeps name (backup name (suc (suc k))) k _
            (λ j low high q. let same = backup_inj name (suc (suc k)) j q in absurd (omega arith))
          ∙ rename-moves (backup name (suc k)) (backup name (suc (suc k))) files h')
  | inr n ↦ shift_backups-moves name k i _ lo (omega arith) (
      rename-keeps (backup name (suc k)) (backup name (suc (suc k))) (backup name i) files
        (λ q. n (backup_inj name i (suc k) q))
        (λ q. let same = backup_inj name i (suc (suc k)) q in absurd (omega arith))
      ∙ h)
]

rename-gone :
    (old new : Bytes) (files : Files) → old ≢ new → lookup old (rename old new files) ≡ none
unfolding rename
rename-gone old new files n = elim (Option-cases (lookup old files)) [
  | inl e ↦ rw (e, rename) e
  | inr (c, e) ↦
      rw (e, rename)
        (lookup-insert_ne new old c (delete old files) (λ q. n (sym q))
          ∙ lookup-delete_self old files)
]

below-le : (i : ℕ) (k : ℤ) → pos (suc i) ≤ℤ k → i ≤ below k
below-le i (pos zero) h = omega arith
below-le i (pos (suc n)) h = omega arith
below-le i (negsuc n) h = omega arith

le-below : (i : ℕ) (k : ℤ) → ltb_ℤ k (pos 1) ≡ false → i ≤ suc (below k) → pos i ≤ℤ k
le-below i (pos zero) b h = ground arith
le-below i (pos (suc n)) b h = omega arith
le-below i (negsuc n) b h = ground arith

-- A log that is open, whose next write of `p` would reach the limit.
pub record IsFull (io : Io) (p old : Bytes) (rf : RotatingFile) (files : Files) : Type 0 where
  pub up : rf.file ≡ true
  pub stats : io.stat_ok ≡ true
  pub opens : io.open_ok ≡ true
  pub writes : io.fails_after ≡ none
  pub backs_up : ltb_ℤ rf.backup_count (pos 1) ≡ false
  pub holds : lookup rf.file_name files ≡ some old
  pub reached : ltb_ℤ (wrap64 (pos (length old) +ℤ pos (length p))) rf.max_bytes ≡ false

module _ (io : Io) (p old : Bytes) (rf : RotatingFile) (files : Files)
    (v : IsFull io p old rf files) where
  room : Files
  room = make_room rf.file_name (below rf.backup_count) files

  room-gone : lookup rf.file_name room ≡ none
  unfolding room make_room
  room-gone = rename-gone rf.file_name _ _ (backup-ne-name rf.file_name 1)

  rotates :
      rotating io (length p) rf files ≡ (record rf { file = true }, insert rf.file_name [] room)
  unfolding rotating stat rotate open_file room
  rotates = let gone = room-gone in ground arith

  after : Files
  after = insert rf.file_name p (insert rf.file_name [] room)

  append_new : append_to rf.file_name p (insert rf.file_name [] room) ≡ after
  unfolding append_to after
  append_new = rw (lookup-insert_self rf.file_name [] room, append_to) refl

  write-full : write io p rf files ≡ (some (length p), record rf { file = true }, after)
  unfolding write write_file
  write-full = let e = rotates in let a = append_new in ground arith

  -- A file that is neither the log nor its first backup.
  after-lookup :
      (path : Bytes)
      → rf.file_name ≢ path
      → path ≢ backup rf.file_name 1
      → lookup path after ≡ lookup path (shift_backups rf.file_name (below rf.backup_count) files)
  unfolding after room make_room
  after-lookup path m n =
      lookup-insert_ne rf.file_name path p _ m
      ∙ lookup-insert_ne rf.file_name path [] _ m
      ∙ rename-keeps rf.file_name (backup rf.file_name 1) path _ (λ q. m (sym q)) n

  after-first : lookup (backup rf.file_name 1) after ≡ some old
  unfolding after room make_room
  after-first =
      let m = backup-ne-name rf.file_name 1 in
      lookup-insert_ne rf.file_name (backup rf.file_name 1) p _ m
      ∙ lookup-insert_ne rf.file_name (backup rf.file_name 1) [] _ m
      ∙ rename-moves rf.file_name (backup rf.file_name 1) _ (
          shift_backups-keeps rf.file_name rf.file_name (below rf.backup_count) files
            (λ i lo hi. backup-ne-name rf.file_name i)
          ∙ v.holds)

  -- A `Write` that would bring an open log to its limit or past it, with a backup count of 1 or more
  -- and system calls that go well, returns the number of bytes. Then the log holds just these bytes,
  -- its first backup holds what the log held, each later backup up to the count holds what the one
  -- before it held, if there was one, and no other file is changed.
  pub write_rotates :
      let (r, rf', files') = write io p rf files in
      (r ≡ some (length p))
      × (lookup rf.file_name files' ≡ some p)
      × (lookup (backup rf.file_name 1) files' ≡ some old)
      × ((i : ℕ) (c : Bytes)
          → 1 ≤ i
          → pos (suc i) ≤ℤ rf.backup_count
          → lookup (backup rf.file_name i) files ≡ some c
          → lookup (backup rf.file_name (suc i)) files' ≡ some c)
      × ((path : Bytes)
          → path ≢ rf.file_name
          → ((i : ℕ) → 1 ≤ i → pos i ≤ℤ rf.backup_count → path ≢ backup rf.file_name i)
          → lookup path files' ≡ lookup path files)
  write_rotates = rw write-full (
    refl,
    (unfold after in lookup-insert_self rf.file_name p _),
    after-first,
    (λ i c lo hi h.
        after-lookup (backup rf.file_name (suc i)) (backup-ne-name rf.file_name (suc i))
          (λ q. let same = backup_inj rf.file_name (suc i) 1 q in absurd (omega arith))
        ∙ shift_backups-moves rf.file_name (below rf.backup_count) i files lo
            (below-le i rf.backup_count hi) h),
    (λ path m others.
        after-lookup path (λ q. m (sym q))
          (others 1 (omega arith) (le-below 1 rf.backup_count v.backs_up (omega arith)))
        ∙ shift_backups-keeps rf.file_name path (below rf.backup_count) files
            (λ i lo hi. others i lo (le-below i rf.backup_count v.backs_up hi))),
  )
