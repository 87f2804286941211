-- ===== src/Util/Seq.antt =====
-- util/util.go: the generic slice functions. `append(result, x)` is `result ++ x ∷ []`.
use ae_ro_go.Base.{
  ℕ, ◌+◌, ◌≡◌, refl, sym, ap, ◌∙◌, Bool, true, false, List, [], ◌∷◌, ◌++◌, append-nil, append_assoc,
  Option, none, some, if◌then◌else◌, Bool-cases, Option-cases, inl, inr, arith, ◌||◌, map,
}
use ae_ro_go.Base.Eq.{Eq, contains, contains-append, Distinct}

module _ {ℓ κ} {T : Type ℓ} {R : Type κ} where
  map_loop : (T → R) → List R → List T → List R
  map_loop fn result [] = result
  map_loop fn result (e ∷ es) = map_loop fn (result ++ fn e ∷ []) es

  -- `Map`
  unfoldable pub map_slice : List T → (T → R) → List R
  unfolding map_loop
  map_slice elements fn = map_loop fn [] elements

  map_indexed_loop : (ℕ → T → R) → ℕ → List R → List T → List R
  map_indexed_loop fn i result [] = result
  map_indexed_loop fn i result (e ∷ es) = map_indexed_loop fn (i + 1) (result ++ fn i e ∷ []) es

  -- `MapIndexed`
  unfoldable pub map_indexed : List T → (ℕ → T → R) → List R
  unfolding map_indexed_loop
  map_indexed elements fn = map_indexed_loop fn 0 [] elements

  map_indexed_loop-map :
      (f : T → R) (i : ℕ) (result : List R) (s : List T)
      → map_indexed_loop (λ i e. f e) i result s ≡ result ++ map f s
  unfolding map_indexed_loop
  map_indexed_loop-map f i result [] = rw append-nil refl
  map_indexed_loop-map f i result (e ∷ s) =
      map_indexed_loop-map f (i + 1) (result ++ f e ∷ []) s
      ∙ append_assoc result (f e ∷ []) (map f s)

  pub map_indexed-map : (f : T → R) (s : List T) → map_indexed s (λ i e. f e) ≡ map f s
  unfolding map_indexed
  map_indexed-map f s = map_indexed_loop-map f 0 [] s

  -- The two results of `fn` are one `Option`.
  map_filtered_loop : (T → Option R) → List R → List T → List R
  map_filtered_loop fn result [] = result
  map_filtered_loop fn result (e ∷ es) =
      map_filtered_loop fn (elim (fn e) [ some r ↦ result ++ r ∷ [] | none ↦ result ]) es

  -- `MapFiltered`
  unfoldable pub map_filtered : List T → (T → Option R) → List R
  unfolding map_filtered_loop
  map_filtered elements fn = map_filtered_loop fn [] elements

module _ {ℓ} {T : Type ℓ} where
  filter_loop : (T → Bool) → List T → List T → List T
  filter_loop fn result [] = result
  filter_loop fn result (e ∷ es) = filter_loop fn (if fn e then result ++ e ∷ [] else result) es

  -- `Filter`
  unfoldable pub filter_slice : List T → (T → Bool) → List T
  unfolding filter_loop
  filter_slice elements fn = filter_loop fn [] elements

module _ {ℓ} {T : Type ℓ} ⦃eq : Eq T⦄ where
  -- `all_keys` is the map that is used as a set.
  de_duplicate_loop : List T → List T → List T → List T
  de_duplicate_loop all_keys list [] = list
  de_duplicate_loop all_keys list (item ∷ items) =
      let seen = de_duplicate_loop all_keys list items in
      let fresh = de_duplicate_loop (item ∷ all_keys) (list ++ item ∷ []) items in
      if contains all_keys item then seen else fresh

  -- `DeDuplicate`
  unfoldable pub de_duplicate : List T → List T
  unfolding de_duplicate_loop
  de_duplicate slice_list = de_duplicate_loop [] [] slice_list

module _ {ℓ κ} {T : Type ℓ} {R : Type κ} where
  map_loop-append :
      (fn : T → R) (result : List R) (es : List T) → map_loop fn result es ≡ result ++ map fn es
  unfolding map_loop
  map_loop-append fn result [] = sym (append-nil result)
  map_loop-append fn result (e ∷ es) =
      map_loop-append fn (result ++ fn e ∷ []) es ∙ append_assoc result (fn e ∷ []) (map fn es)

  pub map_slice-map : (es : List T) (fn : T → R) → map_slice es fn ≡ map fn es
  unfolding map_slice
  map_slice-map es fn = map_loop-append fn [] es

  -- The values that `fn` yields, in order.
  abbrev pub yields : (T → Option R) → List T → List R
  yields fn [] = []
  yields fn (e ∷ es) = elim (fn e) [ some r ↦ r ∷ yields fn es | none ↦ yields fn es ]

  map_filtered_loop-append :
      (fn : T → Option R) (result : List R) (es : List T)
      → map_filtered_loop fn result es ≡ result ++ yields fn es
  unfolding map_filtered_loop
  map_filtered_loop-append fn result [] = sym (append-nil result)
  map_filtered_loop-append fn result (e ∷ es) = elim (Option-cases (fn e)) [
    | inl n ↦ rw (n, yields) (map_filtered_loop-append fn result es)
    | inr (r, some_r) ↦
        rw (some_r, yields)
          (map_filtered_loop-append fn (result ++ r ∷ []) es
            ∙ append_assoc result (r ∷ []) (yields fn es))
  ]

  pub map_filtered-yields : (es : List T) (fn : T → Option R) → map_filtered es fn ≡ yields fn es
  unfolding map_filtered
  map_filtered-yields es fn = map_filtered_loop-append fn [] es

module _ {ℓ} {T : Type ℓ} where
  -- The items that pass, in order.
  abbrev pub keeps : (T → Bool) → List T → List T
  keeps fn [] = []
  keeps fn (e ∷ es) = if fn e then e ∷ keeps fn es else keeps fn es

  pub keeps_ext : (f g : T → Bool) (es : List T) → ((e : T) → f e ≡ g e) → keeps f es ≡ keeps g es
  keeps_ext f g [] same = refl
  keeps_ext f g (e ∷ es) same =
      rw (same e) (ap (λ l. if g e then e ∷ l else l) (keeps_ext f g es same))

  pub keeps-append :
      (fn : T → Bool) (xs ys : List T) → keeps fn (xs ++ ys) ≡ keeps fn xs ++ keeps fn ys
  keeps-append fn [] ys = refl
  keeps-append fn (x ∷ xs) ys = elim (Bool-cases (fn x)) [
    | inl t ↦ rw t (ap (◌∷◌ x) (keeps-append fn xs ys))
    | inr f ↦ rw f (keeps-append fn xs ys)
  ]

  filter_loop-append :
      (fn : T → Bool) (result : List T) (es : List T)
      → filter_loop fn result es ≡ result ++ keeps fn es
  unfolding filter_loop
  filter_loop-append fn result [] = sym (append-nil result)
  filter_loop-append fn result (e ∷ es) = elim (Bool-cases (fn e)) [
    | inl t ↦
        rw t
          (filter_loop-append fn (result ++ e ∷ []) es ∙ append_assoc result (e ∷ []) (keeps fn es))
    | inr f ↦ rw f (filter_loop-append fn result es)
  ]

  pub filter_slice-keeps : (es : List T) (fn : T → Bool) → filter_slice es fn ≡ keeps fn es
  unfolding filter_slice
  filter_slice-keeps es fn = filter_loop-append fn [] es

module _ {ℓ} {T : Type ℓ} ⦃eq : Eq T⦄ where
  Distinct-append :
      (xs : List T) (x : T) → Distinct xs → contains xs x ≡ false → Distinct (xs ++ x ∷ [])
  unfolding contains
  Distinct-append [] x d h = (refl, tt)
  Distinct-append (y ∷ ys) x d h = (
    ground (arith, contains-append ys (x ∷ []) y, eq.beq_iff x y, eq.beq_iff y x),
    Distinct-append ys x d.1 (ground arith),
  )

  contains_grown :
      (keys list : List T) (x : T)
      → ((a : T) → contains keys a ≡ contains list a)
      → (a : T) → contains (x ∷ keys) a ≡ contains (list ++ x ∷ []) a
  unfolding contains
  contains_grown keys list x same a = rw (contains-append list (x ∷ []) a) (ground (arith, same a))

  -- While the keys are those of the list so far, the list stays free of repetitions and gains
  -- exactly the items that it lacks.
  de_duplicate_loop-Distinct :
      (keys list items : List T)
      → ((a : T) → contains keys a ≡ contains list a)
      → Distinct list
      → Distinct (de_duplicate_loop keys list items)
  unfolding de_duplicate_loop
  de_duplicate_loop-Distinct keys list [] same d = d
  de_duplicate_loop-Distinct keys list (x ∷ xs) same d = elim (Bool-cases (contains keys x)) [
    | inl t ↦ rw t (de_duplicate_loop-Distinct keys list xs same d)
    | inr f ↦ rw f (
        de_duplicate_loop-Distinct (x ∷ keys) (list ++ x ∷ []) xs (contains_grown keys list x same)
          (Distinct-append list x d (sym (same x) ∙ f)))
  ]

  contains-de_duplicate_loop :
      (keys list items : List T)
      → ((a : T) → contains keys a ≡ contains list a)
      → (a : T)
      → contains (de_duplicate_loop keys list items) a ≡ (contains list a || contains items a)
  unfolding de_duplicate_loop contains
  contains-de_duplicate_loop keys list [] same a = ground arith
  contains-de_duplicate_loop keys list (x ∷ xs) same a = elim (Bool-cases (contains keys x)) [
    | inl t ↦
        rw t
          (ground (arith, contains-de_duplicate_loop keys list xs same a, same x, eq.beq_iff x a))
    | inr f ↦ rw f (
        ground (
          arith,
          contains-de_duplicate_loop (x ∷ keys) (list ++ x ∷ []) xs
              (contains_grown keys list x same) a,
          contains-append list (x ∷ []) a,
        ))
  ]

  -- On items that are distinct and new, the loop adds them all, in order.
  de_duplicate_loop_fresh :
      (keys list items : List T)
      → Distinct items
      → ((a : T) → contains items a ≡ true → contains keys a ≡ false)
      → de_duplicate_loop keys list items ≡ list ++ items
  unfolding de_duplicate_loop contains
  de_duplicate_loop_fresh keys list [] d new = sym (append-nil list)
  de_duplicate_loop_fresh keys list (x ∷ xs) d new = rw (new x (ground (arith, eq.beq_iff x x))) (
      de_duplicate_loop_fresh (x ∷ keys) (list ++ x ∷ []) xs d.1 later
      ∙ append_assoc list (x ∷ []) xs)
    where
      later : (a : T) → contains xs a ≡ true → contains (x ∷ keys) a ≡ false
      later a h = ground (arith, new a, eq.beq_iff x a, d.0)

  pub de_duplicate_fresh : (xs : List T) → Distinct xs → de_duplicate xs ≡ xs
  unfolding de_duplicate
  de_duplicate_fresh xs d = de_duplicate_loop_fresh [] [] xs d (λ a h. unfold contains in refl)

  -- `DeDuplicate` returns a list with no entry twice and with the entries of its argument, and
  -- changes nothing when it is called again.
  pub de_duplicate_lem :
      (xs : List T)
      → Distinct (de_duplicate xs)
        × ((a : T) → contains (de_duplicate xs) a ≡ contains xs a)
        × (de_duplicate (de_duplicate xs) ≡ de_duplicate xs)
  unfolding de_duplicate contains
  de_duplicate_lem xs = (
    de_duplicate_loop-Distinct [] [] xs (λ a. refl) tt,
    contains-de_duplicate_loop [] [] xs (λ a. refl),
    de_duplicate_fresh _ (de_duplicate_loop-Distinct [] [] xs (λ a. refl) tt),
  )
