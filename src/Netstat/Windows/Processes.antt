-- ===== src/Netstat/Windows/Processes.antt =====
-- netstat/netstat_windows.go: the snapshot of all processes, and the name of one in it.
use ae_ro_go.Base.{
  ℕ, ◌-◌, ◌^◌, ◌≡◌, refl, inl, inr, Bool, true, not, List, [], ◌∷◌, Bytes, Option, none, some, take,
  ltb, ◌==◌, if◌then◌else◌, Bool-cases,
}
use ae_ro_go.Netstat.Process.{index}
use ae_ro_go.Netstat.Windows.{Returned}

-- `InvalidHandleValue` of 64 bits.
abbrev pub invalid_handle : ℕ
invalid_handle = 2 ^ 64 - 1

-- `CreateToolhelp32Snapshot`: the handle, or none with an error.
unfoldable pub create_snapshot : Returned → Option ℕ
create_snapshot ret =
    if not (ret.call_err == 0) then none else if ret.r1 == invalid_handle then none else some ret.r1

-- An answer to `Process32First` or `Process32Next`, with the id and the name that it has written.
pub record Entry : Type 0 where
  pub ret : Returned
  pub process_id : ℕ
  pub exe_file : Bytes

-- Whether `Process32First` or `Process32Next` returns an error.
unfoldable pub process32_fails : Returned → Bool
process32_fails ret = if not (ret.call_err == 0) then true else ret.r1 == 0

-- `StringFromNullTerminated`
unfoldable pub string_from_null_terminated : Bytes → Bytes
string_from_null_terminated b = elim (index 0 b) [
  | none ↦ []
  | some n ↦ if ltb n 1 then [] else take n b
]

-- `ProcPIDToName`, on the answers to its calls, one after the other.
unfoldable pub proc_pid_to_name : List Entry → ℕ → Bytes
proc_pid_to_name [] pid = []
proc_pid_to_name (e ∷ entries) pid =
    let rest = proc_pid_to_name entries pid in
    if process32_fails e.ret
    then []
    else if e.process_id == pid
    then string_from_null_terminated e.exe_file
    else rest

-- `sockProcess`
unfoldable pub sock_process : List Entry → ℕ → Option (ℕ × Bytes)
sock_process snp pid = if ltb pid 1 then none else some (pid, proc_pid_to_name snp pid)

-- The entries in front of the first error.
abbrev pub readable : List Entry → List Entry
readable [] = []
readable (e ∷ entries) = if process32_fails e.ret then [] else e ∷ readable entries

-- The file of the first entry with an id.
abbrev pub file_of : List Entry → ℕ → Option Bytes
file_of [] pid = none
file_of (e ∷ entries) pid = if e.process_id == pid then some e.exe_file else file_of entries pid

-- The name is that of the first entry with the id in front of the first error, and empty if there is
-- none.
pub proc_pid_to_name-file_of :
    (entries : List Entry) (pid : ℕ)
    → proc_pid_to_name entries pid ≡ elim (file_of (readable entries) pid) [
      | none ↦ []
      | some file ↦ string_from_null_terminated file
    ]
unfolding proc_pid_to_name
proc_pid_to_name-file_of [] pid = refl
proc_pid_to_name-file_of (e ∷ entries) pid = elim (Bool-cases (process32_fails e.ret)) [
  | inl t ↦ rw t refl
  | inr f ↦ elim (Bool-cases (e.process_id == pid)) [
    | inl same ↦ rw (f, same) refl
    | inr other ↦ rw (f, other) (proc_pid_to_name-file_of entries pid)
  ]
]
