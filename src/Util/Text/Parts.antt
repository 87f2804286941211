-- ===== src/Util/Text/Parts.antt =====
-- util/util.go: `Split` and `Join` at a separator of one byte, on parts that are free of it.
use ae_ro_go.Base.{
  ℕ, ◌≡◌, ◌≢◌, sym, ap, ◌∙◌, List, [], ◌∷◌, ◌++◌, append-nil, append_assoc, Bytes, All, arith,
}
use ae_ro_go.Util.Text.{has_prefix, cut, split, join, glue, separated, glue-separated}

abbrev pub Lacks : ℕ → Bytes → Type 0
Lacks b = All (λ c. c ≢ b)

-- A part without the separator is passed over whole.
pub cut-Lacks :
    (b : ℕ) (p rest : Bytes) (parts : List Bytes) (cur : Bytes)
    → Lacks b p
    → cut (b ∷ []) 0 (p ++ rest) parts cur ≡ cut (b ∷ []) 0 rest parts (cur ++ p)
unfolding cut has_prefix
cut-Lacks b [] rest parts cur h = rw append-nil
cut-Lacks b (c ∷ p) rest parts cur h =
    ground (arith, cut-Lacks b p rest parts (cur ++ c ∷ []), append_assoc cur (c ∷ []) p)

pub cut_at :
    (b : ℕ) (s : Bytes) (parts : List Bytes) (cur : Bytes)
    → cut (b ∷ []) 0 (b ∷ s) parts cur ≡ cut (b ∷ []) 0 s (parts ++ cur ∷ []) []
unfolding cut has_prefix
cut_at b s parts cur = ground arith

cut-separated :
    (b : ℕ) (p : Bytes) (ps parts : List Bytes)
    → Lacks b p
    → All (Lacks b) ps
    → cut (b ∷ []) 0 (p ++ separated (b ∷ []) ps) parts [] ≡ parts ++ (p ∷ ps)
unfolding separated cut
cut-separated b p [] parts h hs = cut-Lacks b p [] parts [] h
cut-separated b p (q ∷ ps) parts h hs =
    cut-Lacks b p (b ∷ (q ++ separated (b ∷ []) ps)) parts [] h
    ∙ cut_at b (q ++ separated (b ∷ []) ps) parts p
    ∙ cut-separated b q ps (parts ++ p ∷ []) hs.0 hs.1
    ∙ append_assoc parts (p ∷ []) (q ∷ ps)

-- Parts that do not hold the separator are found again in their join, if there is one at all.
pub split-join :
    (b : ℕ) (p : Bytes) (ps : List Bytes)
    → Lacks b p
    → All (Lacks b) ps
    → split (join (p ∷ ps) (b ∷ [])) (b ∷ []) ≡ p ∷ ps
unfolding split join
split-join b p ps h hs =
    ap (λ s. cut (b ∷ []) 0 s [] []) (glue-separated (b ∷ []) ps p) ∙ cut-separated b p ps [] h hs

pub split_two :
    (b : ℕ) (p q : Bytes) → Lacks b p → Lacks b q → split (p ++ (b ∷ q)) (b ∷ []) ≡ p ∷ q ∷ []
unfolding join glue
split_two b p q hp hq = split-join b p (q ∷ []) hp (hq, tt)

pub split_three :
    (b : ℕ) (p q r : Bytes)
    → Lacks b p
    → Lacks b q
    → Lacks b r
    → split (p ++ (b ∷ (q ++ (b ∷ r)))) (b ∷ []) ≡ p ∷ q ∷ r ∷ []
unfolding join glue
split_three b p q r hp hq hr =
    ap (λ s. split s (b ∷ [])) (sym (append_assoc p (b ∷ q) (b ∷ r)))
    ∙ split-join b p (q ∷ r ∷ []) hp (hq, (hr, tt))

-- A text without the separator is one part.
pub split_lacking : (b : ℕ) (p : Bytes) → Lacks b p → split p (b ∷ []) ≡ p ∷ []
unfolding join glue
split_lacking b p h = split-join b p [] h tt
