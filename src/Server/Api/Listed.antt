-- ===== src/Server/Api/Listed.antt =====
-- server/server.go: which clients `/list` shows, and what `/ping` does.
use ae_ro_go.Base.{
  ℕ, ◌<◌, ◌≡◌, ◌≢◌, refl, sym, ap, ◌∙◌, ◌⊎◌, inl, inr, Bool, true, false, ◌||◌, List, [], ◌∷◌, ◌++◌,
  append-nil, append_assoc, Bytes, bytes_eq, bytes_eq_iff, none, some, length, map, All,
  get_elem?-All, ◌==◌, Option-cases, arith,
}
use mathlib.Core.Path.{subst}
use ae_ro_go.Base.Int.{ℤ}
use ae_ro_go.Base.Chan.{Outcome, done, blocked, ok_or_blocked, send}
use ae_ro_go.Base.Eq.{contains, Bytes_eq}
use ae_ro_go.Util.Ema.{Float}
use ae_ro_go.Util.Legal.{IsWordByte}
use ae_ro_go.Util.Text.{join}
use ae_ro_go.Util.Text.Parts.{Lacks, split-join}
use ae_ro_go.Util.Seq.{keeps, filter_slice-keeps, keeps_ext}
use ae_ro_go.Message.{heartbeat_request}
use ae_ro_go.Server.Manager.{Manager, ping, send_message}
use ae_ro_go.Server.Manager.Invariant.{Inv}
use ae_ro_go.Server.Registry.{Server, find_manager, put_manager, filter_managers}
use ae_ro_go.Server.Registry.StreamLaws.{find_manager-heap}
use ae_ro_go.Server.Api.{
  ManagerInfo, Reply, mgrs, ping_time, nothing, manager_info, info_loop, server_info, handle_list,
  handle_ping,
}

-- A tag that may log in has no comma.
word-Lacks : (t : Bytes) → All IsWordByte t → Lacks b',' t
word-Lacks [] h = tt
word-Lacks (c ∷ t) h = (not_comma h.0, word-Lacks t h.1)
  where
    not_comma : IsWordByte c → c ≢ b','
    not_comma w e = ground arith

words-Lacks : (ts : List Bytes) → All (All IsWordByte) ts → All (Lacks b',') ts
words-Lacks [] h = tt
words-Lacks (t ∷ ts) h = (word-Lacks t h.0, words-Lacks ts h.1)

module _ (float : Float) where
  info_loop-map :
      (ms : List (Manager float)) (infos : List (ManagerInfo float))
      → info_loop float ms infos ≡ infos ++ map (manager_info float) ms
  unfolding info_loop
  info_loop-map [] infos = sym (append-nil infos)
  info_loop-map (m ∷ ms) infos =
      info_loop-map ms (infos ++ manager_info float m ∷ [])
      ∙ append_assoc infos (manager_info float m ∷ []) (map (manager_info float) ms)

  keeps_all : (ms : List (Manager float)) → keeps (λ m. true) ms ≡ ms
  keeps_all [] = refl
  keeps_all (m ∷ ms) = ap (◌∷◌ m) (keeps_all ms)

  server_info-all :
      (visited : List (Manager float))
      → server_info float visited [] ≡ map (manager_info float) visited
  unfolding server_info filter_managers
  server_info-all visited =
      info_loop-map _ []
      ∙ ap (map (manager_info float)) (filter_slice-keeps visited (λ m. true) ∙ keeps_all visited)

  server_info-tags :
      (visited : List (Manager float)) (t : Bytes) (ts : List Bytes)
      → server_info float visited (t ∷ ts)
        ≡ map (manager_info float) (keeps (λ m. contains (t ∷ ts) m.tag) visited)
  unfolding server_info filter_managers
  server_info-tags visited t ts =
      info_loop-map _ []
      ∙ ap (map (manager_info float)) (
          filter_slice-keeps visited (λ m. length (t ∷ ts) == 0 || contains (t ∷ ts) m.tag)
          ∙ keeps_ext _ _ visited (λ m. not_empty (contains (t ∷ ts) m.tag)))
    where
      not_empty : (b : Bool) → (length (t ∷ ts) == 0 || b) ≡ b
      not_empty b = ground arith

  -- Without tags, `/list` shows every manager; with tags that may log in, in a list with commas, it
  -- shows exactly the managers whose tag is one of them.
  pub handle_list_lem :
      (visited : List (Manager float)) (t : Bytes) (ts : List Bytes)
      → All IsWordByte t
      → All (All IsWordByte) ts
      → join (t ∷ ts) (b',' ∷ []) ≢ []
      → (handle_list float visited [] ≡ mgrs (map (manager_info float) visited))
        × (handle_list float visited (join (t ∷ ts) (b',' ∷ []))
            ≡ mgrs (map (manager_info float) (keeps (λ m. contains (t ∷ ts) m.tag) visited)))
  unfolding handle_list bytes_eq
  handle_list_lem visited t ts h hs filled = (
    ap (λ l. mgrs l) (server_info-all visited),
    rw (no_text, split-join b',' t ts (word-Lacks t h) (words-Lacks ts hs))
        (ap (λ l. mgrs l) (server_info-tags visited t ts)),
  )
    where
      no_text : bytes_eq (join (t ∷ ts) (b',' ∷ [])) [] ≡ false
      no_text = ground (arith, bytes_eq_iff (join (t ∷ ts) (b',' ∷ [])) [])

  abbrev pub pinged : Manager float → ℤ → Manager float
  pinged m now = record m {
    send_chan = record m.send_chan {
      buf = m.send_chan.buf ++ heartbeat_request (record { timestamp = now }) ∷ [];
    };
  }

  -- The three ways in which a manager takes a ping.
  abbrev pub Pinged :
      Server float → ℤ → ℕ → Manager float → Outcome (Reply float × Server float) → Type 0
  Pinged s now p m outcome =
      ((m.closed ≡ true) × (outcome ≡ done (ping_time now, put_manager float s p m)))
      ⊎ ((m.closed ≡ false)
          × (length m.send_chan.buf < m.send_chan.cap)
          × (outcome ≡ done (ping_time now, put_manager float s p (pinged m now))))
      ⊎ ((m.closed ≡ false) × (length m.send_chan.buf ≡ m.send_chan.cap) × (outcome ≡ blocked))

  handle_ping-found :
      (s : Server float) (now : ℤ) (cid : Bytes) (p : ℕ) (m : Manager float)
      → find_manager float s cid ≡ some (p, m)
      → handle_ping float s now cid
        ≡ ok_or_blocked (ping float m now) λ r. done (ping_time r.0, put_manager float s p r.1)
  unfolding handle_ping
  handle_ping-found s now cid p m e = rw (handle_ping, e) refl

  ping_cases :
      (m : Manager float) (now : ℤ)
      → Inv float m
      → ((m.closed ≡ true) × (ping float m now ≡ done (now, m)))
        ⊎ ((m.closed ≡ false)
            × (length m.send_chan.buf < m.send_chan.cap)
            × (ping float m now ≡ done (now, pinged m now)))
        ⊎ ((m.closed ≡ false)
            × (length m.send_chan.buf ≡ m.send_chan.cap)
            × (ping float m now ≡ blocked))
  unfolding ping send_message send
  ping_cases m now v = ground (arith, v.send_closed, v.send_fits)

  ping-Pinged :
      (s : Server float) (now : ℤ) (p : ℕ) (m : Manager float)
      → Inv float m
      → Pinged s now p m
          (ok_or_blocked (ping float m now) λ r. done (ping_time r.0, put_manager float s p r.1))
  ping-Pinged s now p m v = elim (ping_cases m now v) [
    | inl (shut, e) ↦ inl (shut, rw e refl)
    | inr (inl (up, room, e)) ↦ inr (inl (up, room, rw e refl))
    | inr (inr (up, full, e)) ↦ inr (inr (up, full, rw e refl))
  ]

  -- `/ping` of an unknown client answers nothing; of a closed one it answers the time all the same,
  -- and sends nothing; of an open one, it adds a heartbeat to the send channel, and waits while that
  -- is full.
  pub handle_ping_lem :
      (s : Server float) (now : ℤ) (cid : Bytes)
      → All (Inv float) s.heap
      → ((find_manager float s cid ≡ none) × (handle_ping float s now cid ≡ done (nothing, s)))
        ⊎ ((p : ℕ) × (m : Manager float) × (find_manager float s cid ≡ some (p, m))
            × Pinged s now p m (handle_ping float s now cid))
  unfolding handle_ping
  handle_ping_lem s now cid inv = elim (Option-cases (find_manager float s cid)) [
    | inl e ↦ inl (e, rw (handle_ping, e) refl)
    | inr ((p, m), e) ↦
        let (_, g) = find_manager-heap float s cid e in
        inr (
          p,
          m,
          e,
          subst (Pinged s now p m) (sym (handle_ping-found s now cid p m e))
              (ping-Pinged s now p m (get_elem?-All (Inv float) s.heap p inv g)),
        )
  ]
