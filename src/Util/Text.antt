-- ===== src/Util/Text.antt =====
-- util/util.go: `SplitX` and `JoinX`, over `strings.Split` and `strings.Join` at a separator that is
-- not empty.
pub mod Parts
use ae_ro_go.Base.{
  ℕ, zero, suc, ◌-◌, ◌≤◌, ◌≡◌, ◌≢◌, refl, sym, ◌∙◌, Bool, true, false, ◌&&◌, List, [], ◌∷◌, ◌++◌,
  append-nil, append_assoc, Bytes, length, drop, ◌==◌, if◌then◌else◌, Bool-cases, inl, inr, arith,
}
use mathlib.Core.List.{concat-ne-nil}

-- `strings.HasPrefix(s, p)`
unfoldable pub has_prefix : Bytes → Bytes → Bool
has_prefix s [] = true
has_prefix [] (d ∷ p) = false
has_prefix (c ∷ s) (d ∷ p) = c == d && has_prefix s p

-- `skip` bytes of a separator are still to be passed over; `cur` is the part that is being read.
unfoldable pub cut : Bytes → ℕ → Bytes → List Bytes → Bytes → List Bytes
cut sep skip [] parts cur = parts ++ cur ∷ []
cut sep (suc skip) (c ∷ s) parts cur = cut sep skip s parts cur
cut sep zero (c ∷ s) parts cur =
    let found = cut sep (length sep - 1) s (parts ++ cur ∷ []) [] in
    let next = cut sep 0 s parts (cur ++ c ∷ []) in if has_prefix (c ∷ s) sep then found else next

-- `strings.Split`
unfoldable pub split : Bytes → Bytes → List Bytes
split s sep = cut sep 0 s [] []

glue : Bytes → List Bytes → Bytes → Bytes
glue sep [] out = out
glue sep (p ∷ ps) out = glue sep ps (out ++ (sep ++ p))

-- `strings.Join`
unfoldable pub join : List Bytes → Bytes → Bytes
unfolding glue
join [] sep = []
join (p ∷ ps) sep = glue sep ps p

-- `SplitX`
unfoldable pub split_x : Bytes → Bytes → List Bytes
split_x [] sep = []
split_x (c ∷ s) sep = split (c ∷ s) sep

-- `JoinX`
unfoldable pub join_x : List Bytes → Bytes → Bytes
join_x [] sep = []
join_x (p ∷ []) sep = p
join_x (p ∷ q ∷ ps) sep = join (p ∷ q ∷ ps) sep

-- Every part behind a separator.
separated : Bytes → List Bytes → Bytes
separated sep [] = []
separated sep (p ∷ ps) = (sep ++ p) ++ separated sep ps

separated-append :
    (sep : Bytes) (ps qs : List Bytes)
    → separated sep (ps ++ qs) ≡ separated sep ps ++ separated sep qs
unfolding separated
separated-append sep [] qs = refl
separated-append sep (p ∷ ps) qs = simp (separated-append sep ps, append_assoc)

glue-separated :
    (sep : Bytes) (ps : List Bytes) (out : Bytes) → glue sep ps out ≡ out ++ separated sep ps
unfolding glue separated
glue-separated sep [] out = sym (append-nil out)
glue-separated sep (p ∷ ps) out = simp (glue-separated sep ps, append_assoc)

separated-join : (sep : Bytes) (ps : List Bytes) → ps ≢ [] → separated sep ps ≡ sep ++ join ps sep
unfolding join separated
separated-join sep [] h = absurd (h refl)
separated-join sep (p ∷ ps) h = rw (glue-separated, append_assoc)

has_prefix-drop :
    (s p : Bytes) → has_prefix s p ≡ true → (p ++ drop (length p) s ≡ s) × (length p ≤ length s)
unfolding has_prefix
has_prefix-drop s [] h = (refl, omega arith)
has_prefix-drop [] (d ∷ p) h = cc
has_prefix-drop (c ∷ s) (d ∷ p) h = ground (arith, has_prefix-drop s p)

-- The parts so far, the current part and the unread input spell the whole text.
separated-cut :
    (d : ℕ) (sep : Bytes) (skip : ℕ) (s : Bytes) (parts : List Bytes) (cur : Bytes)
    → skip ≤ length s
    → separated (d ∷ sep) (cut (d ∷ sep) skip s parts cur)
      ≡ separated (d ∷ sep) parts ++ ((d ∷ sep) ++ (cur ++ drop skip s))
unfolding cut separated
separated-cut d sep zero [] parts cur h =
    rw (separated-append (d ∷ sep) parts (cur ∷ [])) (simp append-nil)
separated-cut d sep (suc skip) [] parts cur h = absurd (omega arith)
separated-cut d sep (suc skip) (c ∷ s) parts cur h =
    separated-cut d sep skip s parts cur (omega arith)
separated-cut d sep zero (c ∷ s) parts cur h = elim (Bool-cases (has_prefix (c ∷ s) (d ∷ sep))) [
  | inl t ↦
      let k : suc (length sep) - 1 ≡ length sep = omega arith in
      let (spell, fits) = has_prefix-drop (c ∷ s) (d ∷ sep) t in
      rw (t, k)
        (separated-cut d sep (length sep) s (parts ++ cur ∷ []) [] (omega arith)
          ∙ rw (separated-append (d ∷ sep) parts (cur ∷ []))
              (simp (append_assoc, append-nil, spell)))
  | inr f ↦ rw f (separated-cut d sep 0 s parts (cur ++ c ∷ []) (omega arith) ∙ simp append_assoc)
]

cut-ne-nil :
    (sep : Bytes) (skip : ℕ) (s : Bytes) (parts : List Bytes) (cur : Bytes)
    → cut sep skip s parts cur ≢ []
unfolding cut
cut-ne-nil sep zero [] parts cur = concat-ne-nil cur parts
cut-ne-nil sep (suc skip) [] parts cur = concat-ne-nil cur parts
cut-ne-nil sep (suc skip) (c ∷ s) parts cur = cut-ne-nil sep skip s parts cur
cut-ne-nil sep zero (c ∷ s) parts cur = elim (Bool-cases (has_prefix (c ∷ s) sep)) [
  | inl t ↦ rw t (cut-ne-nil sep (length sep - 1) s (parts ++ cur ∷ []) [])
  | inr f ↦ rw f (cut-ne-nil sep 0 s parts (cur ++ c ∷ []))
]

join_x-join : (ps : List Bytes) (sep : Bytes) → join_x ps sep ≡ join ps sep
unfolding join_x join
join_x-join [] sep = refl
join_x-join (p ∷ []) sep = refl
join_x-join (p ∷ q ∷ ps) sep = refl

append_cancel : (xs ys zs : Bytes) → xs ++ ys ≡ xs ++ zs → ys ≡ zs
append_cancel [] ys zs h = h
append_cancel (x ∷ xs) ys zs h = append_cancel xs ys zs (cc)

-- `JoinX` puts back together what `SplitX` took apart, for every text and every separator that is
-- not empty.
pub join_x-split_x : (s : Bytes) (d : ℕ) (sep : Bytes) → join_x (split_x s (d ∷ sep)) (d ∷ sep) ≡ s
unfolding split_x split separated
join_x-split_x [] d sep = unfold join_x in refl
join_x-split_x (c ∷ s) d sep =
    join_x-join _ (d ∷ sep)
    ∙ append_cancel (d ∷ sep) _ (c ∷ s) (
        sym (separated-join (d ∷ sep) _ (cut-ne-nil (d ∷ sep) 0 (c ∷ s) [] []))
        ∙ separated-cut d sep 0 (c ∷ s) [] [] (omega arith))
