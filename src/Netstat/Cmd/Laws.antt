-- ===== src/Netstat/Cmd/Laws.antt =====
-- netstat/cmd/main.go: the two numbers of `-range` and `-ocp`, and the branch of `-range`.
use ae_ro_go.Base.{
  ◌-◌, ℕ, ◌^◌, ◌≤◌, ◌<◌, ◌≡◌, ◌≢◌, refl, sym, ap, ◌∙◌, Bool, false, List, [], ◌∷◌, ◌++◌, Bytes,
  bytes_eq, bytes_eq_iff, codes, Option, none, some, All, arith,
}
use ae_ro_go.Base.Int.{ℤ, pos}
use ae_ro_go.Base.Decimal.{utoa, itoa, atoi_value}
use ae_ro_go.Base.Decimal.RoundTrip.{utoa-All, atoi_value-utoa}
use ae_ro_go.Util.Text.{split}
use ae_ro_go.Util.Text.Parts.{Lacks, split_two, split_lacking}
use ae_ro_go.Netstat.Ports.{find_one_available_port}
use ae_ro_go.Netstat.Ports.Scan.{FirstFree, find_one_available_port-FirstFree}
use ae_ro_go.Netstat.Tables.{Proc}
use ae_ro_go.Netstat.Cmd.Display.{Host}
use ae_ro_go.Netstat.Cmd.{Flags, two_ports, print_range, prints, says, run_netstat}

digits-Lacks : (s : Bytes) → All (λ c. (b'0' ≤ c) × (c ≤ b'9')) s → Lacks b':' s
digits-Lacks [] h = tt
digits-Lacks (c ∷ s) h = ((λ e. omega (arith, e, h.0.1)), digits-Lacks s h.1)

utoa-Lacks : (n : ℕ) → Lacks b':' (utoa n)
utoa-Lacks n = digits-Lacks (utoa n) (utoa-All n)

two_ports-split :
    (arg start end : Bytes) (rest : List Bytes)
    → split arg (b':' ∷ []) ≡ start ∷ end ∷ rest
    → two_ports arg ≡ some (atoi_value start, atoi_value end)
unfolding two_ports
two_ports-split arg start end rest e = rw (two_ports, e) refl

-- Two numbers with a colon between them are read as they are.
pub two_ports-utoa :
    (m n : ℕ)
    → m < 2 ^ 63
    → n < 2 ^ 63
    → two_ports (utoa m ++ (b':' ∷ utoa n)) ≡ some (pos m, pos n)
two_ports-utoa m n hm hn =
    two_ports-split (utoa m ++ (b':' ∷ utoa n)) (utoa m) (utoa n) []
      (split_two b':' (utoa m) (utoa n) (utoa-Lacks m) (utoa-Lacks n))
    ∙ rw (atoi_value-utoa m hm, atoi_value-utoa n hn) refl

pub two_ports_lacking : (arg : Bytes) → Lacks b':' arg → two_ports arg ≡ none
unfolding two_ports
two_ports_lacking arg h = rw (two_ports, split_lacking b':' arg h) refl

-- The line that is printed for what was found.
abbrev pub range_line : Option ℤ → Bytes
range_line none = codes "no available port in the specified range\n"
range_line (some port) = codes "Available port: " ++ (itoa port ++ codes "\n")

print_range-line :
    (probe : ℤ → Bool) (arg : Bytes) (s e : ℤ) (found : Option ℤ)
    → two_ports arg ≡ some (s, e)
    → find_one_available_port probe s e ≡ some found
    → print_range probe arg ≡ says (range_line found)
unfolding print_range
print_range-line probe arg s e none h f = rw (print_range, h, f) refl
print_range-line probe arg s e (some port) h f = rw (print_range, h, f) refl

pub filled : (s : Bytes) → s ≢ [] → bytes_eq s [] ≡ false
filled s h = ground (arith, bytes_eq_iff s [])

-- A text with a separator in it is not empty.
pub split-ne-nil : (b : ℕ) (s t : Bytes) → s ++ (b ∷ t) ≢ []
split-ne-nil b [] t h = cc
split-ne-nil b (c ∷ s) t h = cc

-- With `-range m:n`, where n is below the largest int, the command prints the least port of the
-- range, both ends included, that can be listened on, or that there is none.
pub run_netstat-FirstFree :
    (host : Host) (sys : Proc) (listen probe : ℤ → Bool) (flags : Flags) (m n : ℕ)
    → flags.help ≡ false
    → flags.ocp ≡ []
    → flags.range ≡ utoa m ++ (b':' ∷ utoa n)
    → m < 2 ^ 63
    → n < 2 ^ 63 - 1
    → (found : Option ℤ) × FirstFree probe (pos m) (pos n) found
      × (run_netstat host sys listen probe flags ≡ prints (range_line found ∷ []))
unfolding run_netstat bytes_eq
run_netstat-FirstFree host sys listen probe flags m n help ocp range hm hn =
    let some_range : bytes_eq flags.range [] ≡ false =
      filled flags.range (λ e. split-ne-nil b':' (utoa m) (utoa n) (sym range ∙ e)) in
    let (found, e, first) =
      find_one_available_port-FirstFree probe (pos m) (pos n) (ground (arith, hn)) in
    let line =
      print_range-line probe flags.range (pos m) (pos n) found
        (ap two_ports range ∙ two_ports-utoa m n hm (omega arith)) e in
    (found, first, rw (run_netstat, help, ocp, some_range, line) refl)
