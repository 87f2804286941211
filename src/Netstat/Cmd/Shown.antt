-- ===== src/Netstat/Cmd/Shown.antt =====
-- netstat/cmd/main.go: which sockets of which tables the command displays.
use ae_ro_go.Base.{
  ◌≡◌, refl, ap, ◌∙◌, sym, Bool, true, false, not, ◌||◌, ◌&&◌, List, [], ◌∷◌, ◌++◌, append-nil,
  Bytes, bytes_eq, none, some, ◌==◌, if◌then◌else◌, Option-cases, Bool-cases, inl, inr, arith,
}
use mathlib.Core.Path.{fun_ext}
use mathlib.Core.Option
use ae_ro_go.Base.Int.{ℤ}
use ae_ro_go.Util.Seq.{keeps}
use ae_ro_go.Netstat.Listing.{SockTabEntry, Mode, tcp, tcp6, udp, udp6}
use ae_ro_go.Netstat.Tables.{Proc, os_mode_socks, mode_name}
use ae_ro_go.Netstat.Cmd.Display.{Host, display_sock_info}
use ae_ro_go.Netstat.Cmd.{
  Flags, listen_state, accept_fn, selected, proto_of, display_all, header_lines, prints,
  run_netstat,
}
use ae_ro_go.Netstat.Cmd.Filter.{os_mode_socks-keeps}

-- Whether the flags ask for a table: UDP only with `-udp`, TCP with `-tcp` or without `-udp`; IPv4
-- and IPv6 each with its flag, or both without either flag.
abbrev pub asked_for : Flags → Mode → Bool
asked_for flags udp = flags.show_udp && (flags.ipv4 || not flags.ipv6)
asked_for flags udp6 = flags.show_udp && (flags.ipv6 || not flags.ipv4)
asked_for flags tcp = (flags.show_tcp || not flags.show_udp) && (flags.ipv4 || not flags.ipv6)
asked_for flags tcp6 = (flags.show_tcp || not flags.show_udp) && (flags.ipv6 || not flags.ipv4)

-- Whether a socket of a table is shown: all of UDP; of TCP all with `-all`, else those that listen
-- exactly with `-lis`.
abbrev tcp_shown : Flags → SockTabEntry → Bool
tcp_shown flags e =
    flags.all || (if e.state == listen_state then flags.listening else not flags.listening)

abbrev pub shown : Flags → Mode → SockTabEntry → Bool
shown flags udp e = true
shown flags udp6 e = true
shown flags tcp e = tcp_shown flags e
shown flags tcp6 e = tcp_shown flags e

-- The lines of a table as it is read whole, with the sockets that are not shown left out; none if the
-- flags do not ask for it or it cannot be read.
abbrev pub table_lines : Host → Proc → Flags → Mode → List Bytes
table_lines host sys flags mode =
    if asked_for flags mode
    then elim (os_mode_socks sys mode (λ e. true)) [
      | none ↦ []
      | some tab ↦
          display_sock_info host flags.resolve flags.list_port (mode_name mode)
            (keeps (shown flags mode) tab)
    ]
    else []

module _ (host : Host) (sys : Proc) (flags : Flags) where
  read_lines : Mode → (SockTabEntry → Bool) → List Bytes
  read_lines mode accept = elim (os_mode_socks sys mode (λ e. true)) [
    | none ↦ []
    | some tab ↦
        display_sock_info host flags.resolve flags.list_port (mode_name mode) (keeps accept tab)
  ]

  display_one :
      (mode : Mode) (accept : SockTabEntry → Bool) (rest : List (Mode × (SockTabEntry → Bool)))
      → display_all host flags sys ((mode, accept) ∷ rest)
        ≡ read_lines mode accept ++ display_all host flags sys rest
  unfolding display_all read_lines
  display_one mode accept rest = elim (Option-cases (os_mode_socks sys mode (λ e. true))) [
    | inl n ↦
        let whole = os_mode_socks-keeps sys mode accept ∙ ap (Option.map (keeps accept)) n in
        rw (whole, n, display_all, read_lines) refl
    | inr (tab, e) ↦
        let whole = os_mode_socks-keeps sys mode accept ∙ ap (Option.map (keeps accept)) e in
        rw (whole, e, display_all, read_lines) refl
  ]

  accept_fn-tcp_shown : accept_fn flags ≡ tcp_shown flags
  unfolding accept_fn
  accept_fn-tcp_shown = fun_ext (λ e. ground arith)

  -- A table of the list, if the flags ask for it.
  if_asked : Mode → (SockTabEntry → Bool) → List (Mode × (SockTabEntry → Bool))
  if_asked mode accept = if asked_for flags mode then (mode, accept) ∷ [] else []

  selected-if_asked :
      selected flags
      ≡ if_asked udp (λ e. true)
        ++ (if_asked udp6 (λ e. true)
            ++ (if_asked tcp (accept_fn flags) ++ if_asked tcp6 (accept_fn flags)))
  unfolding selected proto_of if_asked
  selected-if_asked = ground arith

  lines : Mode → (SockTabEntry → Bool) → List Bytes
  lines mode accept = if asked_for flags mode then read_lines mode accept else []

  display_if_asked :
      (mode : Mode) (accept : SockTabEntry → Bool) (rest : List (Mode × (SockTabEntry → Bool)))
      → display_all host flags sys (if_asked mode accept ++ rest)
        ≡ lines mode accept ++ display_all host flags sys rest
  unfolding if_asked lines
  display_if_asked mode accept rest = elim (Bool-cases (asked_for flags mode)) [
    | inl t ↦ rw t (display_one mode accept rest)
    | inr f ↦ rw f refl
  ]

  display_last :
      (mode : Mode) (accept : SockTabEntry → Bool)
      → display_all host flags sys (if_asked mode accept) ≡ lines mode accept
  unfolding display_all
  display_last mode accept =
      ap (display_all host flags sys) (sym (append-nil (if_asked mode accept)))
      ∙ display_if_asked mode accept []
      ∙ append-nil (lines mode accept)

  display_all-selected :
      display_all host flags sys (selected flags)
      ≡ lines udp (λ e. true)
        ++ (lines udp6 (λ e. true) ++ (lines tcp (accept_fn flags) ++ lines tcp6 (accept_fn flags)))
  display_all-selected =
      rw
        (
          selected-if_asked,
          display_if_asked udp,
          display_if_asked udp6,
          display_if_asked tcp,
          display_last tcp6,
        )
        refl

displays :
    (host : Host) (sys : Proc) (listen probe : ℤ → Bool) (flags : Flags)
    → flags.help ≡ false
    → flags.ocp ≡ []
    → flags.range ≡ []
    → run_netstat host sys listen probe flags
      ≡ prints (header_lines host ++ display_all host flags sys (selected flags))
unfolding run_netstat bytes_eq
displays host sys listen probe flags help ocp range = simp (run_netstat, help, ocp, range)

-- Without `-help`, `-ocp` and `-range` the command prints its header and then the tables of UDP, UDP
-- over IPv6, TCP and TCP over IPv6 in this order: each table that the flags ask for and that can be
-- read, with exactly the sockets that they let through, in the order of the table.
pub run_netstat-table_lines :
    (host : Host) (sys : Proc) (listen probe : ℤ → Bool) (flags : Flags)
    → flags.help ≡ false
    → flags.ocp ≡ []
    → flags.range ≡ []
    → run_netstat host sys listen probe flags
      ≡ prints (
          header_lines host
          ++ (table_lines host sys flags udp
              ++ (table_lines host sys flags udp6
                  ++ (table_lines host sys flags tcp ++ table_lines host sys flags tcp6))))
unfolding lines read_lines
run_netstat-table_lines host sys listen probe flags help ocp range =
    let all = display_all-selected host sys flags in
    let fn = accept_fn-tcp_shown host sys flags in
    displays host sys listen probe flags help ocp range ∙ rw (all, fn) refl
