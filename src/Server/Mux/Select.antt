-- ===== src/Server/Mux/Select.antt =====
-- server/mux.go: the route of a host name.
use ae_ro_go.Base.{
  ℕ, ◌-◌, ◌≡◌, refl, sym, ap, ◌∙◌, ◌⊎◌, inl, inr, [], ◌∷◌, ◌++◌, append-nil, Bytes, bytes_eq_refl,
  none, some, length, length-append, take-append_self, drop-append_self, arith,
}
use ae_ro_go.Util.Text.{split_x, split, cut}
use ae_ro_go.Util.Text.Parts.{Lacks, cut-Lacks, cut_at}
use ae_ro_go.Server.Mux.{trim_suffix, first_two, domain_route}

trim_suffix-append : (s suffix : Bytes) → trim_suffix (s ++ suffix) suffix ≡ s
unfolding trim_suffix
trim_suffix-append s suffix =
    let n : length (s ++ suffix) - length suffix ≡ length s =
      omega (arith, length-append s suffix) in
    rw (n, drop-append_self s suffix, bytes_eq_refl suffix) (take-append_self s suffix)

split_x_lacking :
    (b : ℕ) (s : Bytes) → Lacks b s → (split_x s (b ∷ []) ≡ []) ⊎ (split_x s (b ∷ []) ≡ s ∷ [])
unfolding split_x split
split_x_lacking b [] h = inl refl
split_x_lacking b (c ∷ s) h = inr (
    ap (λ t. cut (b ∷ []) 0 t [] []) (sym (append-nil (c ∷ s)))
    ∙ cut-Lacks b (c ∷ s) [] [] [] h
    ∙ unfold cut in refl)

split_dotted :
    (b : ℕ) (t u : Bytes)
    → Lacks b t
    → Lacks b u
    → cut (b ∷ []) 0 (t ++ (b ∷ (u ++ (b ∷ [])))) [] [] ≡ t ∷ u ∷ [] ∷ []
split_dotted b t u ht hu =
    cut-Lacks b t (b ∷ (u ++ (b ∷ []))) [] [] ht
    ∙ cut_at b (u ++ (b ∷ [])) [] t
    ∙ cut-Lacks b u (b ∷ []) (t ∷ []) [] hu
    ∙ cut_at b [] (t ∷ []) u
    ∙ unfold cut in refl

split_x_dotted :
    (b : ℕ) (t u : Bytes)
    → Lacks b t
    → Lacks b u
    → split_x (t ++ (b ∷ (u ++ (b ∷ [])))) (b ∷ []) ≡ t ∷ u ∷ [] ∷ []
unfolding split_x split
split_x_dotted b [] u ht hu = split_dotted b [] u ht hu
split_x_dotted b (c ∷ t) u ht hu = split_dotted b (c ∷ t) u ht hu

-- A host name of a tag, a dot, a name, a dot and the domain, with no dot in the tag and none in the
-- name, is routed to that tag and that name.
pub domain_route_lem :
    (tag name domain : Bytes)
    → Lacks b'.' tag
    → Lacks b'.' name
    → domain_route ((tag ++ (b'.' ∷ (name ++ (b'.' ∷ [])))) ++ domain) domain ≡ some (tag, name)
unfolding domain_route first_two
domain_route_lem tag name domain ht hn = ap first_two (
    ap (λ h. split_x h (b'.' ∷ []))
      (trim_suffix-append (tag ++ (b'.' ∷ (name ++ (b'.' ∷ [])))) domain)
    ∙ split_x_dotted b'.' tag name ht hn)

-- A host that has no dot once the domain is trimmed from its end makes the handler panic.
pub domain_route_panics :
    (hostname domain : Bytes)
    → Lacks b'.' (trim_suffix hostname domain)
    → domain_route hostname domain ≡ none
unfolding domain_route first_two
domain_route_panics hostname domain h =
    elim (split_x_lacking b'.' (trim_suffix hostname domain) h) [
      | inl e ↦ ap first_two e
      | inr e ↦ ap first_two e
    ]
