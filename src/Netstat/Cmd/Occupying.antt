-- ===== src/Netstat/Cmd/Occupying.antt =====
-- netstat/cmd/main.go: the branch of `-ocp`.
use ae_ro_go.Base.{◌≡◌, ◌≢◌, refl, ◌⊎◌, Bool, false, List, [], ◌∷◌}
use ae_ro_go.Base.Int.{ℤ}
use ae_ro_go.Util.Text.Parts.{Lacks}
use ae_ro_go.Netstat.Tables.{Proc}
use ae_ro_go.Netstat.Cmd.Display.{Host}
use ae_ro_go.Netstat.Cmd.{Flags, occupy, panics, run_netstat}
use ae_ro_go.Netstat.Cmd.Laws.{filled, two_ports_lacking}

abbrev pub Among : ℤ → List ℤ → Type 0
Among q [] = ⊥
Among q (p ∷ ps) = (q ≡ p) ⊎ Among q ps

-- Without a colon in its argument, `-ocp` makes the command panic.
run_netstat_lacking :
    (host : Host) (sys : Proc) (listen probe : ℤ → Bool) (flags : Flags)
    → flags.help ≡ false
    → flags.ocp ≢ []
    → Lacks b':' flags.ocp
    → run_netstat host sys listen probe flags ≡ panics
unfolding run_netstat occupy
run_netstat_lacking host sys listen probe flags help ocp h =
    rw (run_netstat, help, filled flags.ocp ocp, occupy, two_ports_lacking flags.ocp h) refl
