-- ===== src/Server/Registry/Ids.antt =====
-- server/server.go: `genId`.
use ae_ro_go.Base.{
  ℕ, zero, suc, ◌+◌, ◌≡◌, refl, ◌∙◌, [], ◌∷◌, Bytes, Option, none, some, length, All, Option-cases,
  inl, inr, arith,
}
use ae_ro_go.Base.Dict.{Dict, lookup}
use ae_ro_go.Util.Uid.{rand_str8, IsAlnum}
use ae_ro_go.Util.Uid.Ids.{rand_str8_lem}

-- The loop of `genId`, on a stream of draws, of which `k` are used; `none` when the fuel runs out.
-- The result has the number of draws used.
unfoldable pub gen_id : (ℕ → ℕ) → Dict ℕ → ℕ → ℕ → Bytes → Option (Bytes × ℕ)
gen_id draws managers zero k buf8 = none
gen_id draws managers (suc fuel) k buf8 =
    let key = rand_str8 (draws k) buf8 in
    elim (lookup key managers) [
      | none ↦ some (key, suc k)
      | some p ↦ gen_id draws managers fuel (suc k) key
    ]

-- The id of a draw, which does not hang on the buffer.
abbrev pub id_of : ℕ → Bytes
id_of draw = rand_str8 draw (0 ∷ 0 ∷ 0 ∷ 0 ∷ 0 ∷ 0 ∷ 0 ∷ 0 ∷ [])

abbrev FreshId : (ℕ → ℕ) → Dict ℕ → ℕ → ℕ → Bytes → Type 0
FreshId draws managers fuel k buf8 =
    (id : Bytes) × (used : ℕ) × (gen_id draws managers fuel k buf8 ≡ some (id, used))
    × (lookup id managers ≡ none)
    × (length id ≡ 8)
    × All IsAlnum id

gen_id_hit :
    (draws : ℕ → ℕ) (managers : Dict ℕ) (n k : ℕ) (buf8 : Bytes)
    → length buf8 ≡ 8
    → lookup (rand_str8 (draws k) buf8) managers ≡ none
    → FreshId draws managers (suc n) k buf8
unfolding gen_id
gen_id_hit draws managers n k buf8 h free =
    let (sized, alnum, _) = rand_str8_lem (draws k) buf8 buf8 h h in
    (rand_str8 (draws k) buf8, suc k, rw (free, gen_id), free, sized, alnum)

gen_id_next :
    (draws : ℕ → ℕ) (managers : Dict ℕ) (fuel k : ℕ) (buf8 : Bytes) {p : ℕ}
    → lookup (rand_str8 (draws k) buf8) managers ≡ some p
    → gen_id draws managers (suc fuel) k buf8
      ≡ gen_id draws managers fuel (suc k) (rand_str8 (draws k) buf8)
unfolding gen_id
gen_id_next draws managers fuel k buf8 e = rw (e, gen_id)

-- With a buffer of eight bytes, if one of the next draws, the one `n` places on, gives an id that
-- is free, `genId` returns within `n + 1` rounds, and what it returns is free and made of eight
-- letters and digits.
pub gen_id_lem :
    (draws : ℕ → ℕ) (managers : Dict ℕ) (n k : ℕ) (buf8 : Bytes)
    → length buf8 ≡ 8
    → lookup (id_of (draws (k + n))) managers ≡ none
    → (id : Bytes) × (used : ℕ) × (gen_id draws managers (suc n) k buf8 ≡ some (id, used))
      × (lookup id managers ≡ none)
      × (length id ≡ 8)
      × All IsAlnum id
gen_id_lem draws managers zero k buf8 h free =
    let at_k : k + 0 ≡ k = omega arith in
    let (_, _, same) = rand_str8_lem (draws k) buf8 _ h refl in
    gen_id_hit draws managers 0 k buf8 h (rw same (rw at_k at free))
gen_id_lem draws managers (suc n) k buf8 h free =
    elim (Option-cases (lookup (rand_str8 (draws k) buf8) managers)) [
      | inl e ↦ gen_id_hit draws managers (suc n) k buf8 h e
      | inr (p, e) ↦
          let shift : k + suc n ≡ suc k + n = omega arith in
          let (sized, _, _) = rand_str8_lem (draws k) buf8 buf8 h h in
          let (id, used, run, unused, eight, alnum) =
            gen_id_lem draws managers n (suc k) (rand_str8 (draws k) buf8) sized
              (rw shift at free) in
          (id, used, gen_id_next draws managers (suc n) k buf8 e ∙ run, unused, eight, alnum)
    ]
