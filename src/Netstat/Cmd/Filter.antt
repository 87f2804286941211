-- ===== src/Netstat/Cmd/Filter.antt =====
-- netstat/netstat_linux.go: a filter at the reading of a table.
use ae_ro_go.Base.{
  ◌≡◌, refl, Bool, true, List, [], ◌∷◌, ◌++◌, append-nil, Bytes, drop, if◌then◌else◌, Option-cases,
  Bool-cases, inl, inr,
}
use mathlib.Core.Option
use ae_ro_go.Util.Seq.{keeps, keeps-append}
use ae_ro_go.Netstat.Listing.{SockTabEntry, Mode, tcp, tcp6, udp, udp6}
use ae_ro_go.Netstat.Linux.{parse_entry, socktab_loop, parse_socktab}
use ae_ro_go.Netstat.Tables.{Proc, do_netstat, os_mode_socks}

kept_more :
    (accept : SockTabEntry → Bool) (tab : List SockTabEntry) (e : SockTabEntry)
    → (if accept e then keeps accept tab ++ e ∷ [] else keeps accept tab)
      ≡ keeps accept (tab ++ e ∷ [])
kept_more accept tab e = elim (Bool-cases (accept e)) [
  | inl t ↦ rw (keeps-append accept tab (e ∷ []), t) refl
  | inr f ↦ rw (keeps-append accept tab (e ∷ []), f, append-nil) refl
]

socktab_loop-keeps :
    (accept : SockTabEntry → Bool) (tab : List SockTabEntry) (lines : List Bytes)
    → socktab_loop accept (keeps accept tab) lines
      ≡ Option.map (keeps accept) (socktab_loop (λ e. true) tab lines)
unfolding socktab_loop
socktab_loop-keeps accept tab [] = refl
socktab_loop-keeps accept tab (line ∷ lines) = elim (Option-cases (parse_entry line)) [
  | inl n ↦ rw (socktab_loop, n) refl
  | inr (e, some_e) ↦
      rw (socktab_loop, some_e, kept_more accept tab e)
        (socktab_loop-keeps accept (tab ++ e ∷ []) lines)
]

do_netstat-keeps :
    (sys : Proc) (path : Bytes) (accept : SockTabEntry → Bool)
    → do_netstat sys path accept ≡ Option.map (keeps accept) (do_netstat sys path (λ e. true))
unfolding do_netstat parse_socktab
do_netstat-keeps sys path accept = elim (Option-cases (sys path)) [
  | inl n ↦ rw (do_netstat, n) refl
  | inr (lines, e) ↦ rw (do_netstat, e) (socktab_loop-keeps accept [] (drop 1 lines))
]

-- Each of the four listings with a filter is the whole listing, with the entries left out that do not
-- pass; it fails exactly if the whole one does.
pub os_mode_socks-keeps :
    (sys : Proc) (mode : Mode) (accept : SockTabEntry → Bool)
    → os_mode_socks sys mode accept ≡ Option.map (keeps accept) (os_mode_socks sys mode (λ e. true))
unfolding os_mode_socks
os_mode_socks-keeps sys tcp accept = do_netstat-keeps sys _ accept
os_mode_socks-keeps sys tcp6 accept = do_netstat-keeps sys _ accept
os_mode_socks-keeps sys udp accept = do_netstat-keeps sys _ accept
os_mode_socks-keeps sys udp6 accept = do_netstat-keeps sys _ accept
