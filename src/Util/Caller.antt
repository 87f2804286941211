-- ===== src/Util/Caller.antt =====
-- util/zlog/writer.go: the place of a call in the log, the file's name without its directory.
use ae_ro_go.Base.{
  ℕ, zero, suc, ◌-◌, ◌+◌, ◌∷◌, ◌++◌, Bytes, length, drop, get_or, if◌then◌else◌, ◌==◌,
}
use ae_ro_go.Base.Int.{ℤ}
use ae_ro_go.Base.Decimal.{itoa}

-- The loop from place `i` down to place 1: the file behind the last slash, or the file itself.
unfoldable pub short_loop : ℕ → Bytes → Bytes
short_loop zero file = file
short_loop (suc i) file =
    let rest = short_loop i file in
    if get_or file (suc i) 0 == b'/' then drop (suc i + 1) file else rest

-- `CallerMarshalFunc`
unfoldable pub caller : Bytes → ℤ → Bytes
unfolding short_loop
caller file line = short_loop (length file - 1) file ++ (b':' ∷ itoa line)
