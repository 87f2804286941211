-- ===== src/Client/Targets/Written.antt =====
-- client/main.go: the target list, as the texts of its three forms.
use ae_ro_go.Base.{
  ℕ, zero, suc, false, ◌+◌, ◌≡◌, ◌≢◌, refl, sym, ap, ◌∙◌, List, [], ◌∷◌, ◌++◌, map, Bytes, codes,
  none, some, All, All-append, get_elem?, arith,
}
use mathlib.Core.Path.{subst}
use ae_ro_go.Base.Int.{pos}
use ae_ro_go.Base.Decimal.{utoa}
use ae_ro_go.Base.Dict.{Dict, lookup, insert, lookup-insert_ne}
use ae_ro_go.Util.Text.{join}
use ae_ro_go.Util.Text.Parts.{Lacks, split-join, split_two, split_three, split_lacking}
use ae_ro_go.Client.{Proxy}
use ae_ro_go.Client.Targets.{of_parts, target_of, parse_loop, parse_targets, parse_targets_lem}

-- An element of the list, with a name and a remote port, with a name, or with an address alone.
pub data Target : Type 0 where
  whole : (name addr remote : Bytes) → Target
  named : (name addr : Bytes) → Target
  bare : (addr : Bytes) → Target

abbrev pub written : Target → Bytes
written (whole name addr remote) = name ++ (b'@' ∷ (addr ++ (b'@' ∷ remote)))
written (named name addr) = name ++ (b'@' ∷ addr)
written (bare addr) = addr

abbrev pub written_list : List Target → Bytes
written_list ts = join (map written ts) (b',' ∷ [])

-- The proxy that element number `i` stands for: the remote port is 0, for any, and the name is the
-- number, if they are not given.
abbrev pub stands_for : ℕ → Target → Proxy
stands_for i (whole name addr remote) = record {
  name = name;
  typ = codes "tcp";
  local_addr = addr;
  remote_port = remote;
  wn = pos 0;
  rn = pos 0;
  started = false;
}
stands_for i (named name addr) = record {
  name = name;
  typ = codes "tcp";
  local_addr = addr;
  remote_port = codes "0";
  wn = pos 0;
  rn = pos 0;
  started = false;
}
stands_for i (bare addr) = record {
  name = utoa i;
  typ = codes "tcp";
  local_addr = addr;
  remote_port = codes "0";
  wn = pos 0;
  rn = pos 0;
  started = false;
}

-- No part holds one of the two separators.
abbrev Plain : Bytes → Type 0
Plain s = Lacks b'@' s × Lacks b',' s

abbrev pub IsPlain : Target → Type 0
IsPlain (whole name addr remote) = Plain name × Plain addr × Plain remote
IsPlain (named name addr) = Plain name × Plain addr
IsPlain (bare addr) = Plain addr

abbrev pub names_from : ℕ → List Target → List Bytes
names_from i [] = []
names_from i (t ∷ ts) = (stands_for i t).name ∷ names_from (i + 1) ts

-- The names of the elements from number `i` on differ.
abbrev pub NamesDiffer : ℕ → List Target → Type 0
NamesDiffer i [] = Unit
NamesDiffer i (t ∷ ts) =
    All (λ n. (stands_for i t).name ≢ n) (names_from (i + 1) ts) × NamesDiffer (i + 1) ts

target_of-written : (i : ℕ) (t : Target) → IsPlain t → target_of i (written t) ≡ stands_for i t
unfolding of_parts
target_of-written i (whole name addr remote) (hn, ha, hr) =
    ap (of_parts i) (split_three b'@' name addr remote hn.0 ha.0 hr.0)
target_of-written i (named name addr) (hn, ha) =
    ap (of_parts i) (split_two b'@' name addr hn.0 ha.0)
target_of-written i (bare addr) h = ap (of_parts i) (split_lacking b'@' addr h.0)

joined-Lacks : (b d : ℕ) (s t : Bytes) → d ≢ b → Lacks b s → Lacks b t → Lacks b (s ++ (d ∷ t))
joined-Lacks b d s t n hs ht = All-append (λ c. c ≢ b) s (d ∷ t) hs (n, ht)

joined_twice-Lacks :
    (b d : ℕ) (s t u : Bytes)
    → d ≢ b
    → Lacks b s
    → Lacks b t
    → Lacks b u
    → Lacks b (s ++ (d ∷ (t ++ (d ∷ u))))
joined_twice-Lacks b d s t u n hs ht hu =
    joined-Lacks b d s (t ++ (d ∷ u)) n hs (joined-Lacks b d t u n ht hu)

at-ne-comma : ◌≢◌ {A = ℕ} b'@' b','
at-ne-comma e = omega (arith, e)

written-Lacks : (t : Target) → IsPlain t → Lacks b',' (written t)
written-Lacks (whole name addr remote) h =
    joined_twice-Lacks b',' b'@' name addr remote at-ne-comma h.0.1 h.1.1 h.2.1
written-Lacks (named name addr) h = joined-Lacks b',' b'@' name addr at-ne-comma h.0.1 h.1.1
written-Lacks (bare addr) h = h.1

map-Lacks : (ts : List Target) → All IsPlain ts → All (Lacks b',') (map written ts)
map-Lacks [] h = tt
map-Lacks (t ∷ ts) h = (written-Lacks t h.0, map-Lacks ts h.1)

still_free :
    (name : Bytes) (p : Proxy) (proxies : Dict Proxy) (names : List Bytes)
    → All (λ n. name ≢ n) names
    → All (λ n. lookup n proxies ≡ none) names
    → All (λ n. lookup n (insert name p proxies) ≡ none) names
still_free name p proxies [] d h = tt
still_free name p proxies (n ∷ names) d h =
    (lookup-insert_ne name n p proxies d.0 ∙ h.0, still_free name p proxies names d.1 h.1)

parse_loop_step :
    (i : ℕ) (element : Bytes) (rest : List Bytes) (proxies : Dict Proxy) {d : Dict Proxy}
    → lookup (target_of i element).name proxies ≡ none
    → parse_loop (i + 1) rest (insert (target_of i element).name (target_of i element) proxies)
      ≡ some d
    → parse_loop i (element ∷ rest) proxies ≡ some d
unfolding parse_loop
parse_loop_step i element rest proxies free h = rw (free, parse_loop) h

-- Elements with different names, none of them in the map yet, are accepted.
parse_loop_accepts :
    (i : ℕ) (ts : List Target) (proxies : Dict Proxy)
    → All IsPlain ts
    → NamesDiffer i ts
    → All (λ n. lookup n proxies ≡ none) (names_from i ts)
    → (d : Dict Proxy) × (parse_loop i (map written ts) proxies ≡ some d)
unfolding parse_loop
parse_loop_accepts i [] proxies h n f = (proxies, refl)
parse_loop_accepts i (t ∷ ts) proxies h n f =
    let e = target_of-written i t h.0 in
    let (d, rest) =
      parse_loop_accepts (i + 1) ts (insert (stands_for i t).name (stands_for i t) proxies) h.1 n.1
        (still_free _ (stands_for i t) proxies (names_from (i + 1) ts) n.0 f.1) in
    (
      d,
      parse_loop_step i (written t) (map written ts) proxies
          (subst (λ p. lookup p.name proxies ≡ none) (sym e) f.0)
          (subst (λ p. parse_loop (i + 1) (map written ts) (insert p.name p proxies) ≡ some d)
            (sym e) rest),
    )

none_taken : (names : List Bytes) → All (λ n. lookup {V = Proxy} n [] ≡ none) names
unfolding lookup
none_taken [] = tt
none_taken (n ∷ names) = (refl, none_taken names)

get_elem?-written :
    (ts : List Target) (k : ℕ) {t : Target}
    → get_elem? ts k ≡ some t
    → get_elem? (map written ts) k ≡ some (written t)
get_elem?-written [] k h = cc
get_elem?-written (u ∷ ts) zero {t} h = let same : u ≡ t = cc in ap (λ x. some (written x)) same
get_elem?-written (u ∷ ts) (suc k) h = get_elem?-written ts k h

pub parse_targets-written :
    (t : Target) (ts : List Target)
    → All IsPlain (t ∷ ts)
    → NamesDiffer 0 (t ∷ ts)
    → (d : Dict Proxy) × (parse_targets (written_list (t ∷ ts)) ≡ some d)
      × ((k : ℕ) (u : Target)
          → get_elem? (t ∷ ts) k ≡ some u
          → IsPlain u
          → lookup (stands_for k u).name d ≡ some (stands_for k u))
unfolding parse_targets
parse_targets-written t ts h n =
    let parts =
      split-join b',' (written t) (map written ts) (written-Lacks t h.0) (map-Lacks ts h.1) in
    let (d, e) = parse_loop_accepts 0 (t ∷ ts) [] h n (none_taken (names_from 0 (t ∷ ts))) in
    let all : parse_targets (written_list (t ∷ ts)) ≡ some d =
      ap (λ es. parse_loop 0 es []) parts ∙ e in
    (
      d,
      all,
      (λ k u g p.
          let same = target_of-written k u p in
          rw (same) at (
            parse_targets_lem (written_list (t ∷ ts)) d k (written u) all
              (ap (λ es. get_elem? es k) parts ∙ get_elem?-written (t ∷ ts) k g))),
    )
