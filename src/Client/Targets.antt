-- ===== src/Client/Targets.antt =====
-- client/main.go: the list of targets of the command line, `name@address@port` for each.
pub mod Written
use ae_ro_go.Base.{
  ℕ, zero, suc, ◌+◌, ◌≡◌, ◌∙◌, false, List, [], ◌∷◌, Bytes, codes, Option, none, some, get_elem?,
  head_or, Option-cases, inl, inr, arith,
}
use ae_ro_go.Base.Int.{pos}
use ae_ro_go.Base.Decimal.{utoa}
use ae_ro_go.Base.Dict.{Dict, lookup, insert, lookup-insert_self, lookup-insert_ne}
use ae_ro_go.Util.Text.{split}
use ae_ro_go.Client.{Proxy}

abbrev proxy_of : Bytes → Bytes → Bytes → Proxy
proxy_of name addr remote = record {
  name = name;
  typ = codes "tcp";
  local_addr = addr;
  remote_port = remote;
  wn = pos 0;
  rn = pos 0;
  started = false;
}

-- The proxy of the parts of element number `i`.
unfoldable pub of_parts : ℕ → List Bytes → Proxy
of_parts i (name ∷ addr ∷ remote ∷ []) = proxy_of name addr remote
of_parts i (name ∷ addr ∷ []) = proxy_of name addr (codes "0")
of_parts i parts = proxy_of (utoa i) (head_or [] parts) (codes "0")

abbrev pub target_of : ℕ → Bytes → Proxy
target_of i element = of_parts i (split element (codes "@"))

-- The loop of `main` from element number `i` on; `none` is the return on a name that is taken.
unfoldable pub parse_loop : ℕ → List Bytes → Dict Proxy → Option (Dict Proxy)
parse_loop i [] proxies = some proxies
parse_loop i (element ∷ rest) proxies =
    let p = target_of i element in
    let parsed = parse_loop (i + 1) rest (insert p.name p proxies) in
    elim (lookup p.name proxies) [ some old ↦ none | none ↦ parsed ]

unfoldable pub parse_targets : Bytes → Option (Dict Proxy)
unfolding parse_loop
parse_targets target = parse_loop 0 (split target (codes ",")) []

parse_loop_inv :
    (i : ℕ) (element : Bytes) (rest : List Bytes) (proxies d : Dict Proxy)
    → parse_loop i (element ∷ rest) proxies ≡ some d
    → (lookup (target_of i element).name proxies ≡ none)
      × (parse_loop (i + 1) rest (insert (target_of i element).name (target_of i element) proxies)
          ≡ some d)
unfolding parse_loop
parse_loop_inv i element rest proxies d h =
    elim (Option-cases (lookup (target_of i element).name proxies)) [
      | inl e ↦ (e, rw (e, parse_loop) at h)
      | inr (old, e) ↦ cc (rw (e, parse_loop) at h)
    ]

-- What stands in the map stays there.
parse_loop_keeps :
    (i : ℕ) (es : List Bytes) (proxies d : Dict Proxy) (name : Bytes) (p : Proxy)
    → parse_loop i es proxies ≡ some d
    → lookup name proxies ≡ some p
    → lookup name d ≡ some p
parse_loop_keeps i [] proxies d name p h e =
    let same : proxies ≡ d = unfold parse_loop in cc in rw (← same) e
parse_loop_keeps i (element ∷ rest) proxies d name p h e =
    let (fresh, h') = parse_loop_inv i element rest proxies d h in
    parse_loop_keeps (i + 1) rest _ d name p h' (
      lookup-insert_ne (target_of i element).name name (target_of i element) proxies
        (λ q. let clash : lookup name proxies ≡ none = rw q at fresh in cc)
      ∙ e)

parse_loop_lem :
    (i k : ℕ) (es : List Bytes) (proxies d : Dict Proxy) (element : Bytes)
    → parse_loop i es proxies ≡ some d
    → get_elem? es k ≡ some element
    → lookup (target_of (i + k) element).name d ≡ some (target_of (i + k) element)
parse_loop_lem i k [] proxies d element h g = cc
parse_loop_lem i zero (e ∷ rest) proxies d element h g =
    let (fresh, h') = parse_loop_inv i e rest proxies d h in
    let same : e ≡ element = cc in
    let at_i : i + 0 ≡ i = omega arith in
    rw (at_i, ← same)
      (parse_loop_keeps (i + 1) rest _ d (target_of i e).name (target_of i e) h'
        (lookup-insert_self (target_of i e).name (target_of i e) proxies))
parse_loop_lem i (suc k) (e ∷ rest) proxies d element h g =
    let (fresh, h') = parse_loop_inv i e rest proxies d h in
    let step : (i + 1) + k ≡ i + suc k = omega arith in
    rw (← step) (parse_loop_lem (i + 1) k rest _ d element h' g)

-- If the targets are accepted, every one of them, whatever its form, is in the map under its name as
-- it was written: none has replaced another.
pub parse_targets_lem :
    (target : Bytes) (d : Dict Proxy) (k : ℕ) (element : Bytes)
    → parse_targets target ≡ some d
    → get_elem? (split target (codes ",")) k ≡ some element
    → lookup (target_of k element).name d ≡ some (target_of k element)
unfolding parse_targets
parse_targets_lem target d k element h g =
    let from_zero : 0 + k ≡ k = omega arith in
    rw from_zero at (parse_loop_lem 0 k (split target (codes ",")) [] d element h g)
