-- ===== src/Server/Mux/Offers.antt =====
-- server/mux.go: which ports `selectPort` can give for a tag and a name, and when it gives none.
use ae_ro_go.Base.{
  ℕ, zero, suc, ◌%◌, ◌≡◌, refl, ap, ◌∙◌, ◌⊎◌, ◌↔◌, inl, inr, Bool, true, List, [], ◌∷◌, Bytes,
  bytes_eq_iff, Option, none, some, length, get_elem?, get_or-All, All, ◌||◌, ◌==◌, Option-cases,
  Bool-cases, arith,
}
use ae_ro_go.Base.Eq.{contains, Bytes_eq}
use ae_ro_go.Util.Ema.{Float}
use ae_ro_go.Util.Seq.{
  yields, keeps, map_filtered, map_filtered-yields, filter_slice, filter_slice-keeps,
}
use ae_ro_go.Server.Manager.{Manager}
use ae_ro_go.Server.Registry.{Server, find_manager, filter_managers}
use ae_ro_go.Server.Mux.{
  RoundRobin, Balancer, new_robin, get_robin, update, pick, trim_at, port_of, select_port,
}
use mathlib.Core.Path.{subst}
use native.Mathlib.Nat.{mod-lt}
use ae_ro_go.Server.Mux.Balance.{update_picks}

-- Whatever the round robin stands at, the address that it gives is one of its list.
update-All {κ} :
    (P : Bytes → Type κ) (r : RoundRobin) (p : Bytes) (ps : List Bytes)
    → All P (p ∷ ps)
    → P (update r (p ∷ ps)).0
update-All P r p ps all =
    rw (update_picks r p ps)
      (get_or-All P (p ∷ ps) (r.current % length (p ∷ ps)) [] all (mod-lt r.current (omega arith)))

pick-All {κ} :
    (P : Bytes → Type κ) (balancer : Balancer) (tag p : Bytes) (ps : List Bytes)
    → All P (p ∷ ps)
    → P (pick balancer tag (p ∷ ps)).0
unfolding pick
pick-All P balancer tag p ps all = elim (Option-cases (get_robin balancer tag)) [
  | inl e ↦ rw (e, pick) (update-All P new_robin p ps all)
  | inr (r, e) ↦ rw (e, pick) (update-All P r p ps all)
]

module _ (float : Float) where
  -- A manager of the list with that tag has a proxy of that name at that port.
  abbrev pub Offers : List (Manager float) → Bytes → Bytes → Bytes → Type 0
  Offers visited tag name port =
      (i : ℕ) × (m : Manager float) × (get_elem? visited i ≡ some m)
      × (m.tag ≡ tag)
      × (port_of float name m ≡ some port)

  abbrev tagged : Bytes → Manager float → Bool
  tagged tag m = length (tag ∷ []) == 0 || contains (tag ∷ []) m.tag

  tagged_iff : (tag : Bytes) (m : Manager float) → (tagged tag m ≡ true) ↔ (m.tag ≡ tag)
  unfolding contains
  tagged_iff tag m =
      (λ h. ground (arith, bytes_eq_iff tag m.tag), λ e. ground (arith, bytes_eq_iff tag m.tag))

  -- The ports that `selectPort` collects for a tag.
  abbrev available : List (Manager float) → Bytes → Bytes → List Bytes
  available visited tag name = yields (port_of float name) (keeps (tagged tag) visited)

  available-Offers :
      (all vs : List (Manager float)) (tag name : Bytes)
      → ((i : ℕ) (m : Manager float)
          → get_elem? vs i ≡ some m
          → (j : ℕ) × (get_elem? all j ≡ some m))
      → All (Offers all tag name) (available vs tag name)
  available-Offers all [] tag name within = tt
  available-Offers all (m ∷ vs) tag name within =
      let rest = available-Offers all vs tag name (λ i. within (suc i)) in
      elim (Bool-cases (tagged tag m)) [
        | inr f ↦ rw f rest
        | inl t ↦ elim (Option-cases (port_of float name m)) [
          | inl n ↦ rw (t, yields, n) rest
          | inr (port, e) ↦
              let (j, at) = within 0 m refl in
              rw (t, yields, e) ((j, m, at, (tagged_iff tag m).0 t, e), rest)
        ]
      ]

  available_tail :
      (v : Manager float) (vs : List (Manager float)) (tag name : Bytes)
      → available (v ∷ vs) tag name ≡ []
      → available vs tag name ≡ []
  available_tail v vs tag name h = elim (Bool-cases (tagged tag v)) [
    | inr f ↦ rw f at h
    | inl t ↦ elim (Option-cases (port_of float name v)) [
      | inl n ↦ rw (t, yields, n) at h
      | inr (p, e) ↦ cc (rw (t, yields, e) at h)
    ]
  ]

  Offers-available :
      (vs : List (Manager float)) (tag name port : Bytes)
      → available vs tag name ≡ []
      → ¬ Offers vs tag name port
  Offers-available [] tag name port none_left (i, m, at, same, has) = cc
  Offers-available (v ∷ vs) tag name port none_left (zero, m, at, same, has) =
      let here : v ≡ m = cc in
      let t : tagged tag v ≡ true = (tagged_iff tag v).1 (ap (λ u. u.tag) here ∙ same) in
      let e : port_of float name v ≡ some port = ap (port_of float name) here ∙ has in
      cc (rw (t, yields, e) at none_left)
  Offers-available (v ∷ vs) tag name port none_left (suc i, m, at, same, has) =
      Offers-available vs tag name port (available_tail v vs tag name none_left)
        (i, m, at, same, has)

  -- The ports that a tag and a name can stand for: behind an `@`, the tag is a client's id.
  abbrev pub OfferedBy :
      Server float → List (Manager float) → Option Bytes → Bytes → Bytes → Bytes → Type 0
  OfferedBy s visited (some id) tag name port =
      (p : ℕ) × (m : Manager float) × (find_manager float s id ≡ some (p, m))
      × (port_of float name m ≡ some port)
  OfferedBy s visited none tag name port = Offers visited tag name port

  abbrev pub Offered : Server float → List (Manager float) → Bytes → Bytes → Bytes → Type 0
  Offered s visited tag name port = OfferedBy s visited (trim_at tag) tag name port

  -- `selectPort` gives a port that the tag and the name stand for, or none if there is none.
  abbrev Selected :
      Server float → List (Manager float) → Bytes → Bytes → Option Bytes → Bytes → Type 0
  Selected s visited tag name at selected =
      ((selected ≡ []) × ((port : Bytes) → ¬ OfferedBy s visited at tag name port))
      ⊎ OfferedBy s visited at tag name selected

  by_id :
      (s : Server float) (visited : List (Manager float)) (balancer : Balancer)
      (tag name id : Bytes)
      → trim_at tag ≡ some id
      → Selected s visited tag name (some id) (select_port float s visited balancer tag name).0
  unfolding select_port
  by_id s visited balancer tag name id h = elim (Option-cases (find_manager float s id)) [
    | inl n ↦ inl (rw (select_port, h, n) refl, λ port o. cc)
    | inr ((p, m), e) ↦ elim (Option-cases (port_of float name m)) [
      | inl n ↦ inl (rw (select_port, h, e, n) refl, λ port o. cc)
      | inr (port, g) ↦ inr (p, m, e, rw (select_port, h, e, g) refl)
    ]
  ]

  collected :
      (visited : List (Manager float)) (tag name : Bytes)
      → map_filtered (filter_managers float visited (tag ∷ [])) (port_of float name)
        ≡ available visited tag name
  unfolding filter_managers
  collected visited tag name =
      map_filtered-yields (filter_slice visited (tagged tag)) (port_of float name)
      ∙ ap (yields (port_of float name)) (filter_slice-keeps visited (tagged tag))

  by_tag :
      (s : Server float) (visited : List (Manager float)) (balancer : Balancer) (tag name : Bytes)
      → trim_at tag ≡ none
      → Selected s visited tag name none (select_port float s visited balancer tag name).0
  unfolding select_port
  by_tag s visited balancer tag name h = go (available visited tag name) refl
    where
      go :
          (l : List Bytes)
          → available visited tag name ≡ l
          → Selected s visited tag name none (select_port float s visited balancer tag name).0
      go [] e = inl (
        rw (select_port, h, collected visited tag name, e) refl,
        λ port. Offers-available visited tag name port e,
      )
      go (p ∷ ps) e =
          let chosen : (select_port float s visited balancer tag name).0
              ≡ (pick balancer tag (p ∷ ps)).0 =
            rw (select_port, h, collected visited tag name, e) refl in
          inr (
            rw chosen (
              pick-All (Offers visited tag name) balancer tag p ps (
                subst (All (Offers visited tag name)) e
                  (available-Offers visited visited tag name (λ i m at. (i, at))))))

  -- Whatever the round robins stand at, `selectPort` gives a port that the tag and the name stand
  -- for, or the empty text, and then there is no such port, or such a port that is empty.
  pub select_port-Offered :
      (s : Server float) (visited : List (Manager float)) (balancer : Balancer) (tag name : Bytes)
      → (((select_port float s visited balancer tag name).0 ≡ [])
          × ((port : Bytes) → ¬ Offered s visited tag name port))
        ⊎ Offered s visited tag name (select_port float s visited balancer tag name).0
  select_port-Offered s visited balancer tag name = elim (Option-cases (trim_at tag)) [
    | inl e ↦ rw e (by_tag s visited balancer tag name e)
    | inr (id, e) ↦ rw e (by_id s visited balancer tag name id e)
  ]
