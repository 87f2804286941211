-- ===== src/Server/System/Entries.antt =====
-- server/server.go: a manager that enters the map, and one that leaves it.
use ae_ro_go.Base.{
  ℕ, zero, suc, ◌+◌, ◌-◌, ◌≡◌, refl, sym, ap, ◌∙◌, ◌⊎◌, inl, inr, true, List, [], ◌∷◌, ◌++◌,
  append-nil, Bytes, bytes_eq, bytes_eq_iff, none, some, length, length-append, get_elem?,
  get_elem?-append_last, get_elem?-append, get_elem?-append_inv, Bool-cases, arith,
}
use mathlib.Core.Path.{subst}
use ae_ro_go.Base.Int.{ℤ}
use ae_ro_go.Base.Dict.{
  Dict, lookup, insert, delete, lookup-insert, lookup-insert_self, lookup-delete,
}
use ae_ro_go.Util.Ema.{Float}
use ae_ro_go.Message.{LoginRequest}
use ae_ro_go.Server.World.{World}
use ae_ro_go.Server.Manager.{Manager, new_manager}
use ae_ro_go.Server.Manager.Invariant.{Inv, new_manager-Inv}
use ae_ro_go.Server.Registry.{register_manager}
use ae_ro_go.Server.System.{System, Phase, running, buried, started, take_in}
use ae_ro_go.Server.System.Invariant.{Sound}

started_one :
    (n : ℕ) (phases : List Phase)
    → length phases ≡ n
    → started (n + 1) phases ≡ phases ++ running ∷ []
started_one n phases h = let one : (n + 1) - length phases ≡ suc zero = omega arith in rw one refl

pub started_none : (n : ℕ) (phases : List Phase) → length phases ≡ n → started n phases ≡ phases
started_none n phases h =
    let none_left : n - length phases ≡ zero = omega arith in rw (none_left, append-nil)

module _ (float : Float) where
  pub take_in-Sound :
      (s : System float) (w : World)
      → Sound float s
      → Sound float (take_in float s (record s.server { world = w }))
  take_in-Sound s w v =
      rw (started_none (length s.server.heap) s.phases v.sized) (record {
        sized = v.sized;
        kept = v.kept;
        listed = v.listed;
        owned = v.owned;
        over = v.over;
      })

  module _ (s : System float) (c : ℕ) (id : Bytes) (now : ℤ) (req : LoginRequest)
      (v : Sound float s) (fresh : lookup id s.server.managers ≡ none) where
    abbrev made : Manager float
    made = new_manager float id c now req

    abbrev heap' : List (Manager float)
    heap' = s.server.heap ++ made ∷ []

    abbrev phases' : List Phase
    phases' = s.phases ++ running ∷ []

    abbrev managers' : Dict ℕ
    managers' = insert id (length s.server.heap) s.server.managers

    made-phase : (p : ℕ) → p ≡ length s.server.heap → get_elem? phases' p ≡ some running
    made-phase p e =
        subst (λ x. get_elem? phases' x ≡ some running) (v.sized ∙ sym e)
          (get_elem?-append_last s.phases running)

    register-listed :
        (p : ℕ) (m : Manager float)
        → get_elem? heap' p ≡ some m
        → (get_elem? phases' p ≡ some buried) ⊎ (lookup m.client_id managers' ≡ some p)
    unfolding new_manager
    register-listed p m h = elim (get_elem?-append_inv s.server.heap made p h) [
      | inl g ↦ elim (v.listed p m g) [
        | inl b ↦ inl (get_elem?-append s.phases (running ∷ []) p b)
        | inr l ↦ inr (
            ground (
              arith,
              lookup-insert id m.client_id (length s.server.heap) s.server.managers,
              bytes_eq_iff id m.client_id,
              fresh,
            ))
      ]
      | inr (e, q) ↦ inr (
          subst (λ i. lookup i managers' ≡ some p) (sym (ap (λ x. x.client_id) q))
            (lookup-insert_self id (length s.server.heap) s.server.managers ∙ ap some (sym e)))
    ]

    register-owned :
        (k : Bytes) (p : ℕ)
        → lookup k managers' ≡ some p
        → (m : Manager float) × (get_elem? heap' p ≡ some m) × (m.client_id ≡ k)
    unfolding new_manager
    register-owned k p h = elim (Bool-cases (bytes_eq id k)) [
      | inl e ↦
          let h' = subst (λ i. lookup i managers' ≡ some p) (sym ((bytes_eq_iff id k).0 e)) h in
          let self = lookup-insert_self id (length s.server.heap) s.server.managers in
          let same : length s.server.heap ≡ p = cc in
          (
            made,
            subst (λ x. get_elem? heap' x ≡ some made) same
                (get_elem?-append_last s.server.heap made),
            (bytes_eq_iff id k).0 e,
          )
      | inr n ↦
          let (m, g, i) =
            v.owned k p
              (ground (arith, lookup-insert id k (length s.server.heap) s.server.managers)) in
          (m, get_elem?-append s.server.heap (made ∷ []) p g, i)
    ]

    register-over :
        (p : ℕ) (m : Manager float)
        → get_elem? heap' p ≡ some m
        → (get_elem? phases' p ≡ some running) ⊎ (m.closed ≡ true)
    register-over p m h = elim (get_elem?-append_inv s.server.heap made p h) [
      | inl g ↦ elim (v.over p m g) [
        | inl b ↦ inl (get_elem?-append s.phases (running ∷ []) p b)
        | inr t ↦ inr t
      ]
      | inr (e, q) ↦ inl (made-phase p e)
    ]

    pub register-Sound :
        (w : World)
        → Sound float
            (take_in float s (record (register_manager float s.server c id now req) { world = w }))
    unfolding register_manager
    register-Sound w =
        rw
          (
            length-append s.server.heap (made ∷ []),
            started_one (length s.server.heap) s.phases v.sized,
          )
          (record {
            sized =
                length-append s.phases (running ∷ [])
                ∙ ap (λ x. x + 1) v.sized
                ∙ sym (length-append s.server.heap (made ∷ []));
            kept = λ p m h. elim (get_elem?-append_inv s.server.heap made p h) [
              | inl g ↦ v.kept p m g
              | inr (e, q) ↦ subst (Inv float) (sym q) (new_manager-Inv float id c now req)
            ];
            listed = register-listed;
            owned = register-owned;
            over = register-over;
          })

  pub delete-Sound :
      (s : System float) (p : ℕ) (m : Manager float)
      → Sound float s
      → get_elem? s.phases p ≡ some buried
      → lookup m.client_id s.server.managers ≡ some p
      → Sound float (record s {
        server = record s.server { managers = delete m.client_id s.server.managers };
      })
  delete-Sound s p m v b l = record {
    sized = v.sized;
    kept = v.kept;
    listed = λ q k h. elim (v.listed q k h) [
      | inl e ↦ inl e
      | inr o ↦ elim (Bool-cases (bytes_eq m.client_id k.client_id)) [
        | inl e ↦
            let l' =
              subst (λ i. lookup i s.server.managers ≡ some p)
                ((bytes_eq_iff m.client_id k.client_id).0 e) l in
            let same : p ≡ q = cc in inl (subst (λ x. get_elem? s.phases x ≡ some buried) same b)
        | inr n ↦ inr (ground (arith, lookup-delete m.client_id k.client_id s.server.managers))
      ]
    ];
    owned = λ k q h. v.owned k q (ground (arith, lookup-delete m.client_id k s.server.managers));
    over = v.over;
  }
