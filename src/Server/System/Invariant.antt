-- ===== src/Server/System/Invariant.antt =====
-- server/server.go: what the map, the managers and their goroutines have to do with each other.
use ae_ro_go.Base.{
  ℕ, ◌≡◌, ◌≢◌, refl, sym, ap, ◌∙◌, ◌⊎◌, inl, inr, true, Bytes, some, length, length-set, get_elem?,
  get_elem?-set_self, get_elem?-set_ne, set, same_or_not,
}
use mathlib.Core.Path.{subst}
use ae_ro_go.Base.Dict.{lookup}
use ae_ro_go.Util.Ema.{Float}
use ae_ro_go.Netstat.Ports.{PortRange}
use ae_ro_go.Server.World.{World}
use ae_ro_go.Server.Manager.{Manager}
use ae_ro_go.Server.Manager.Invariant.{Inv}
use ae_ro_go.Server.Registry.{ServerConfig}
use ae_ro_go.Server.System.{System, Phase, running, buried, new_server, put}

module _ (float : Float) where
  -- A manager that is not buried stands in the map under its id; whatever the map points to is the
  -- manager of that id; and past its loop, `Run` leaves a closed manager.
  pub record Sound (s : System float) : Type 0 where
    pub sized : length s.phases ≡ length s.server.heap
    pub kept : (p : ℕ) (m : Manager float) → get_elem? s.server.heap p ≡ some m → Inv float m
    pub listed :
        (p : ℕ) (m : Manager float)
        → get_elem? s.server.heap p ≡ some m
        → (get_elem? s.phases p ≡ some buried) ⊎ (lookup m.client_id s.server.managers ≡ some p)
    pub owned :
        (k : Bytes) (p : ℕ)
        → lookup k s.server.managers ≡ some p
        → (m : Manager float) × (get_elem? s.server.heap p ≡ some m) × (m.client_id ≡ k)
    pub over :
        (p : ℕ) (m : Manager float)
        → get_elem? s.server.heap p ≡ some m
        → (get_elem? s.phases p ≡ some running) ⊎ (m.closed ≡ true)

  pub new_server-Sound :
      (config : ServerConfig) (range : PortRange) (w : World)
      → Sound (new_server float config range w)
  unfolding lookup
  new_server-Sound config range w = record {
    sized = refl;
    kept = λ p m h. cc;
    listed = λ p m h. cc;
    owned = λ k p h. cc;
    over = λ p m h. cc;
  }

  module _ (s : System float) (p : ℕ) (m m' : Manager float) (phase phase' : Phase) (v : Sound s)
      (at : get_elem? s.server.heap p ≡ some m) (in_phase : get_elem? s.phases p ≡ some phase)
      (keeps : Inv float m') (same_id : m'.client_id ≡ m.client_id)
      (stays : (phase' ≡ buried) ⊎ (lookup m.client_id s.server.managers ≡ some p))
      (ending : (phase' ≡ running) ⊎ (m'.closed ≡ true)) (w : World) (range : PortRange) where
    -- The manager behind a pointer of the new heap: the new one, or one that was there.
    put-elem :
        (q : ℕ) (k : Manager float)
        → get_elem? (set s.server.heap p m') q ≡ some k
        → ((q ≡ p) × (k ≡ m')) ⊎ ((p ≢ q) × (get_elem? s.server.heap q ≡ some k))
    put-elem q k h = elim (same_or_not p q) [
      | inl e ↦
          let h' = subst (λ x. get_elem? (set s.server.heap p m') x ≡ some k) (sym e) h in
          let self = get_elem?-set_self s.server.heap p m' at in inl (sym e, cc)
      | inr n ↦ inr (n, sym (get_elem?-set_ne s.server.heap p q m' n) ∙ h)
    ]

    put-phase : (q : ℕ) → q ≡ p → get_elem? (set s.phases p phase') q ≡ some phase'
    put-phase q e =
        subst (λ x. get_elem? (set s.phases p phase') x ≡ some phase') (sym e)
          (get_elem?-set_self s.phases p phase' in_phase)

    put-listed :
        (q : ℕ) (k : Manager float)
        → get_elem? (set s.server.heap p m') q ≡ some k
        → (get_elem? (set s.phases p phase') q ≡ some buried)
          ⊎ (lookup k.client_id s.server.managers ≡ some q)
    put-listed q k h = elim (put-elem q k h) [
      | inl (e, c) ↦ elim stays [
        | inl b ↦ inl (put-phase q e ∙ ap some b)
        | inr l ↦ inr (
            subst (λ i. lookup i s.server.managers ≡ some q)
              (sym (ap (λ x. x.client_id) c ∙ same_id)) (l ∙ ap some (sym e)))
      ]
      | inr (n, g) ↦ elim (v.listed q k g) [
        | inl b ↦ inl (get_elem?-set_ne s.phases p q phase' n ∙ b)
        | inr l ↦ inr l
      ]
    ]

    put-owned :
        (key : Bytes) (q : ℕ)
        → lookup key s.server.managers ≡ some q
        → (k : Manager float) × (get_elem? (set s.server.heap p m') q ≡ some k)
          × (k.client_id ≡ key)
    put-owned key q h =
        let (k, g, i) = v.owned key q h in
        elim (same_or_not p q) [
          | inl e ↦
              let g' = subst (λ x. get_elem? s.server.heap x ≡ some k) (sym e) g in
              let same : m ≡ k = cc in
              (
                m',
                subst (λ x. get_elem? (set s.server.heap p m') x ≡ some m') e
                    (get_elem?-set_self s.server.heap p m' at),
                same_id ∙ ap (λ x. x.client_id) same ∙ i,
              )
          | inr n ↦ (k, get_elem?-set_ne s.server.heap p q m' n ∙ g, i)
        ]

    put-over :
        (q : ℕ) (k : Manager float)
        → get_elem? (set s.server.heap p m') q ≡ some k
        → (get_elem? (set s.phases p phase') q ≡ some running) ⊎ (k.closed ≡ true)
    put-over q k h = elim (put-elem q k h) [
      | inl (e, c) ↦ elim ending [
        | inl r ↦ inl (put-phase q e ∙ ap some r)
        | inr t ↦ inr (ap (λ x. x.closed) c ∙ t)
      ]
      | inr (n, g) ↦ elim (v.over q k g) [
        | inl b ↦ inl (get_elem?-set_ne s.phases p q phase' n ∙ b)
        | inr t ↦ inr t
      ]
    ]

    pub put-Sound : Sound (put float s p m' w range phase')
    put-Sound = record {
      sized = length-set s.phases p phase' ∙ v.sized ∙ sym (length-set s.server.heap p m');
      kept = λ q k h. elim (put-elem q k h) [
        | inl (e, c) ↦ subst (Inv float) (sym c) keeps
        | inr (n, g) ↦ v.kept q k g
      ];
      listed = put-listed;
      owned = put-owned;
      over = put-over;
    }
