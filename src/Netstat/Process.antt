-- ===== src/Netstat/Process.antt =====
-- netstat/netstat_linux.go: the process that a socket belongs to.
pub mod Names
use ae_ro_go.Base.{
  ℕ, zero, suc, ◌+◌, ◌-◌, ◌≡◌, ◌≢◌, refl, Bool, true, false, List, [], ◌∷◌, ◌++◌, Bytes, bytes_eq,
  codes, Option, none, some, length, take, drop, get_or, ltb, All, not, ◌&&◌, ◌==◌, if◌then◌else◌,
  arith,
}
use ae_ro_go.Base.Int.{ℤ}
use ae_ro_go.Base.Decimal.{atoi}
use ae_ro_go.Util.Text.{has_prefix}
use ae_ro_go.Netstat.Listing.{SockTabEntry}

-- `bytes.Index` of one byte; `none` is -1.
unfoldable pub index : ℕ → Bytes → Option ℕ
index c [] = none
index c (b ∷ s) =
    let rest = index c s in
    if b == c then some 0 else elim rest [ none ↦ none | some i ↦ some (suc i) ]

-- `bytes.LastIndex` of one byte.
unfoldable pub last_index : ℕ → Bytes → Option ℕ
last_index c [] = none
last_index c (b ∷ s) =
    let rest = last_index c s in
    elim rest [ none ↦ if b == c then some 0 else none | some i ↦ some (suc i) ]

-- `getProcName`; the second test of `i` is no other one than the first.
unfoldable pub get_proc_name : Bytes → Bytes
get_proc_name s = elim (index b'(' s) [
  | none ↦ []
  | some i ↦ elim (last_index b')' s) [
    | none ↦ []
    | some j ↦ if ltb j i then [] else take (j - (i + 1)) (drop (i + 1) s)
  ]
]

-- `bytes.SplitN(s, " ", 3)`, its second part; `none` if there is none.
unfoldable pub until_space : Bytes → Bytes
until_space [] = []
until_space (c ∷ s) = let rest = until_space s in if c == b' ' then [] else c ∷ rest

unfoldable pub second_part : Bytes → Option Bytes
second_part [] = none
second_part (c ∷ s) = let rest = second_part s in if c == b' ' then some (until_space s) else rest

-- A directory of /proc: its name, the links of its `fd` directory, `none` for one that cannot be read,
-- and the file `stat`, as far as a `Read` gives it.
pub record ProcDir : Type 0 where
  pub name : Bytes
  pub is_dir : Bool
  pub fds : Option (List (Option Bytes))
  pub stat : Option Bytes

-- The process of a directory, from its `stat`; `none` is the panic of `z[1]`.
unfoldable pub process_of : ℤ → Bytes → Option (ℤ × Bytes)
process_of pid stat = elim (second_part (take 128 stat)) [
  | none ↦ none
  | some z ↦ some (pid, get_proc_name z)
]

-- `ss != lname`
unfoldable pub is_socket : Bytes → Option Bytes → Bool
is_socket ino none = false
is_socket ino (some lname) =
    has_prefix lname (codes "socket:[") && bytes_eq (codes "socket:[" ++ ino ++ codes "]") lname

-- Whose the socket is, as far as it is known; `none` is a panic.
abbrev pub Found : Type 0
Found = Option (Option (ℤ × Bytes))

-- The loop of `iterFdDir`, with `p` the process of the directory once it is known, and `process` that
-- of the socket.
unfoldable pub fd_loop :
    ℤ → Option Bytes → Bytes → Option (ℤ × Bytes) → Option (ℤ × Bytes) → List (Option Bytes) → Found
fd_loop pid stat ino p process [] = some process
fd_loop pid stat ino p process (link ∷ links) =
    let skipped = fd_loop pid stat ino p process links in
    let known = fd_loop pid stat ino p p links in
    if not (is_socket ino link) then skipped else elim p [
      | some q ↦ known
      | none ↦ elim stat [
        | none ↦ some process
        | some text ↦ elim (process_of pid text) [
          | none ↦ none
          | some q ↦ fd_loop pid stat ino (some q) (some q) links
        ]
      ]
    ]

unfoldable pub iter_fd_dir : ℤ → ProcDir → Bytes → Option (ℤ × Bytes) → Found
iter_fd_dir pid dir ino process = elim dir.fds [
  | none ↦ some process
  | some links ↦ fd_loop pid dir.stat ino none process links
]

-- The loop of `extractProcInfo`.
unfoldable pub proc_loop : Bytes → Option (ℤ × Bytes) → List ProcDir → Found
proc_loop ino process [] = some process
proc_loop ino process (dir ∷ dirs) =
    let skipped = proc_loop ino process dirs in
    if not dir.is_dir then skipped else elim (atoi dir.name) [
      | none ↦ skipped
      | some pid ↦ elim (iter_fd_dir pid dir ino process) [
        | none ↦ none
        | some process' ↦ proc_loop ino process' dirs
      ]
    ]

-- `extractProcInfo`, with the directories of /proc, if it can be read.
unfoldable pub extract_proc_info : Option (List ProcDir) → Bytes → Option (ℤ × Bytes) → Found
extract_proc_info none ino process = some process
extract_proc_info (some dirs) ino process = proc_loop ino process dirs
