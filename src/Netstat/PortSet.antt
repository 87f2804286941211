-- ===== src/Netstat/PortSet.antt =====
-- netstat/netstat.go: `GetAllPortSet`. The bitmap of RoaringBitmap/roaring is a parameter.
use ae_ro_go.Base.{
  ℕ, ◌%◌, ◌^◌, ◌<◌, ◌≡◌, refl, sym, ◌∙◌, true, List, [], ◌∷◌, Option, none, some, All, All-split,
  map, Option-cases, inl, inr, if◌then◌else◌, ◌==◌, arith, ◌||◌,
}
use ae_ro_go.Base.Eq.{contains, contains-append, ℕ_eq}
use ae_ro_go.Util.Seq.{map_slice, map_slice-map}
use ae_ro_go.Netstat.Listing.{
  Mode, tcp, tcp6, udp, udp6, get_all_ports, get_all_ports_lem, readable,
}

-- Each number of the list is below the ones behind it.
abbrev pub Ascending : List ℕ → Type 0
Ascending [] = Unit
Ascending (x ∷ xs) = All (λ y. x < y) xs × Ascending xs

abbrev pub Below : ℕ → List ℕ → Type 0
Below n = All (λ v. v < n)

-- A set of 32-bit numbers, with an array of its members, least first.
pub record Bitmap : Type 1 where
  pub B : Type 0
  pub new : B
  pub add : ℕ → B → B
  pub to_array : B → List ℕ
  pub ascends : (b : B) → Ascending (to_array b)
  pub array-new : to_array new ≡ []
  pub array-add :
      (v : ℕ) (b : B) (p : ℕ)
      → v < 2 ^ 32
      → contains (to_array (add v b)) p ≡ (if v == p then true else contains (to_array b) p)

module _ (bitmap : Bitmap) where
  -- The loops with `ports.Add(uint32(v))`.
  unfoldable pub add_set : List ℕ → bitmap.B → bitmap.B
  add_set [] ports = ports
  add_set (v ∷ port_set) ports = add_set port_set (bitmap.add (v % 2 ^ 32) ports)

  -- `util.Map(ports.ToArray(), …)`
  unfoldable pub as_ports : bitmap.B → List ℕ
  as_ports ports = map_slice (bitmap.to_array ports) (λ v. v % 2 ^ 16)

  -- The listings after the first one, up to one that fails.
  unfoldable pub add_sets : (Mode → Option (List ℕ)) → List Mode → bitmap.B → List ℕ
  add_sets os_ports [] ports = as_ports ports
  add_sets os_ports (mode ∷ modes) ports = elim (os_ports mode) [
    | none ↦ as_ports ports
    | some port_set ↦ add_sets os_ports modes (add_set port_set ports)
  ]

  -- `GetAllPortSet`
  unfoldable pub get_all_port_set : (Mode → Option (List ℕ)) → List ℕ
  get_all_port_set os_ports = elim (os_ports tcp) [
    | none ↦ []
    | some port_set ↦ add_sets os_ports (tcp6 ∷ udp ∷ udp6 ∷ []) (add_set port_set bitmap.new)
  ]

contains-Below : (n : ℕ) (xs : List ℕ) → ((p : ℕ) → contains xs p ≡ true → p < n) → Below n xs
unfolding contains
contains-Below n [] h = tt
contains-Below n (x ∷ xs) h = (h x (ground arith), contains-Below n xs (λ p e. h p (ground arith)))

Below-contains : (n : ℕ) (xs : List ℕ) (p : ℕ) → Below n xs → contains xs p ≡ true → p < n
unfolding contains
Below-contains n [] p h e = cc
Below-contains n (x ∷ xs) p h e = ground (arith, h.0, Below-contains n xs p h.1)

map-small : (xs : List ℕ) → Below (2 ^ 16) xs → map (λ v. v % 2 ^ 16) xs ≡ xs
map-small [] h = refl
map-small (x ∷ xs) h = let e : x % 2 ^ 16 ≡ x = omega arith in rw (e, map-small xs h.1) refl

module _ (bitmap : Bitmap) where
  add_set-members :
      (vs : List ℕ) (b : bitmap.B) (p : ℕ)
      → Below (2 ^ 16) vs
      → contains (bitmap.to_array (add_set bitmap vs b)) p
        ≡ contains vs p || contains (bitmap.to_array b) p
  unfolding add_set contains
  add_set-members [] b p h = refl
  add_set-members (v ∷ vs) b p h =
      let e : v % 2 ^ 32 ≡ v = omega arith in
      rw (e, add_set-members vs (bitmap.add v b) p h.1, bitmap.array-add v b p (omega arith))
        (ground arith)

  as_ports-small :
      (b : bitmap.B) → Below (2 ^ 16) (bitmap.to_array b) → as_ports bitmap b ≡ bitmap.to_array b
  unfolding as_ports
  as_ports-small b h =
      map_slice-map (bitmap.to_array b) (λ v. v % 2 ^ 16) ∙ map-small (bitmap.to_array b) h

  -- The bitmap that `add_sets` ends with.
  add_sets-bitmap :
      (os_ports : Mode → Option (List ℕ)) (modes : List Mode) (b : bitmap.B)
      → Below (2 ^ 16) (bitmap.to_array b)
      → Below (2 ^ 16) (readable os_ports modes)
      → (b' : bitmap.B) × (add_sets bitmap os_ports modes b ≡ bitmap.to_array b')
        × ((p : ℕ)
            → contains (bitmap.to_array b') p
              ≡ contains (bitmap.to_array b) p || contains (readable os_ports modes) p)
  unfolding add_sets contains
  add_sets-bitmap os_ports [] b h k = (b, as_ports-small b h, (λ p. ground arith))
  add_sets-bitmap os_ports (mode ∷ modes) b h k = elim (Option-cases (os_ports mode)) [
    | inl e ↦ rw (e, add_sets, readable) (b, as_ports-small b h, (λ p. ground arith))
    | inr (vs, e) ↦
        let parts =
          All-split (λ v. v < 2 ^ 16) vs (readable os_ports modes) (rw (e, readable) at k) in
        let added = add_set bitmap vs b in
        let members = λ (p : ℕ). add_set-members vs b p parts.0 in
        let small = contains-Below (2 ^ 16) (bitmap.to_array added) (λ p q. ground (
          arith,
          members p,
          Below-contains (2 ^ 16) vs p parts.0,
          Below-contains (2 ^ 16) (bitmap.to_array b) p h,
        )) in
        let (b', f, m) = add_sets-bitmap os_ports modes added small parts.1 in
        rw (e, add_sets, readable)
          (
            b',
            f,
            (λ p. ground (arith, m p, members p, contains-append vs (readable os_ports modes) p)),
          )
  ]

  -- If the listings hold 16-bit numbers, as their type says, `GetAllPortSet` returns exactly the ports
  -- that `GetAllPorts` returns, least first and each once.
  pub get_all_port_set-get_all_ports :
      (os_ports : Mode → Option (List ℕ))
      → Below (2 ^ 16) (readable os_ports (tcp ∷ tcp6 ∷ udp ∷ udp6 ∷ []))
      → Ascending (get_all_port_set bitmap os_ports)
        × ((p : ℕ)
            → contains (get_all_port_set bitmap os_ports) p ≡ contains (get_all_ports os_ports) p)
  unfolding get_all_port_set add_sets contains
  get_all_port_set-get_all_ports os_ports h = elim (Option-cases (os_ports tcp)) [
    | inl e ↦
        let (_, same) = get_all_ports_lem os_ports in
        rw (e, get_all_port_set) (tt, (λ p. sym (rw (e, readable) at same p)))
    | inr (vs, e) ↦
        let (_, same) = get_all_ports_lem os_ports in
        let (b, f, m) =
          add_sets-bitmap os_ports (tcp ∷ tcp6 ∷ udp ∷ udp6 ∷ []) bitmap.new
            (rw bitmap.array-new tt) h in
        let whole : get_all_port_set bitmap os_ports ≡ bitmap.to_array b =
          rw (e, get_all_port_set) (rw (e, add_sets) at f) in
        rw whole (bitmap.ascends b, (λ p. m p ∙ rw bitmap.array-new (sym (same p))))
  ]
