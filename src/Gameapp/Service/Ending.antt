-- ===== src/Gameapp/Service/Ending.antt =====
-- Who is disconnected by Sweep and by Close.
use ginx.Prelude.{
  ℕ, ◌≡◌, refl, sym, ap, subst, ◌∙◌, ◌⊎◌, inl, inr, Bool, true, false, none, some, List, [], ◌∷◌,
  ◌++◌, arith, if◌then◌else◌, ◌==◌, nat_eq, string_eq, Bool-cases, Option-cases, is_some,
  append_assoc, elem, int_eq,
}
use native.Mathlib.Decide.{ℕ_discrete}
use ginx.GoMap.{GoMap, get, keys}
use ginx.GoMap.Laws.{get-delete}
use ginx.GoMap.Keys.{elem-keys}
use ginx.Session.{Session, remove_expired}
use ginx.Gameapp.Service.{Service, ConnectedPlayer, disconnect_locked, overdue}
use ginx.Gameapp.Service.Closing.{drop_sessions, drop_overdue, drop_all, sweep, close_service}

module _ {C S : Type 0} where
  -- The connection was told to stop.
  abbrev pub IsStopped : C → Service C S → Type 0
  IsStopped c s = (front : List C) × (back : List C) × (s.stopped ≡ front ++ (c ∷ back))

  -- Nothing is left of the connection, and it was told to stop.
  abbrev pub IsGone : ℕ → C → Service C S → Type 0
  IsGone k c s = (get k s.connections ≡ none) × IsStopped c s

  -- It is there as it was, or gone.
  abbrev KeptOrGone : ℕ → ConnectedPlayer C → Service C S → Type 0
  KeptOrGone k p s = (get k s.connections ≡ some p) ⊎ IsGone k p.connection s

  get-disconnect_locked :
      (s : Service C S) (k j : ℕ)
      → get j (disconnect_locked s k true).connections
        ≡ (if k == j then none else get j s.connections)
  unfolding disconnect_locked
  get-disconnect_locked s k j = elim (Option-cases (get k s.connections)) [
    | inl n ↦
        rw (n, disconnect_locked)
          (ground (arith, n, (λ (t : k ≡ j). ap (λ (i : ℕ). get i s.connections) t)))
    | inr (q, f) ↦ rw (f, disconnect_locked) (get-delete j k s.connections)
  ]

  disconnect_locked-IsGone :
      (s : Service C S) (k j : ℕ) (c : C) → IsGone j c s → IsGone j c (disconnect_locked s k true)
  unfolding disconnect_locked
  disconnect_locked-IsGone s k j c (gone, (front, back, e)) =
      elim (Option-cases (get k s.connections)) [
        | inl n ↦ rw (n, disconnect_locked) (gone, (front, back, e))
        | inr (q, f) ↦
            rw (f, disconnect_locked)
              (
                ground (arith, gone, get-delete j k s.connections),
                (
                  front,
                  back ++ (q.connection ∷ []),
                  rw e (append_assoc front (c ∷ back) (q.connection ∷ [])),
                ),
              )
      ]

  -- Disconnecting a connection that is there ends it.
  disconnect_locked-ends :
      (s : Service C S) (k : ℕ) (p : ConnectedPlayer C)
      → KeptOrGone k p s
      → IsGone k p.connection (disconnect_locked s k true)
  unfolding disconnect_locked
  disconnect_locked-ends s k p (inl e) =
      rw (e, disconnect_locked)
        (ground (arith, get-delete k k s.connections), (s.stopped, [], refl))
  disconnect_locked-ends s k p (inr g) = disconnect_locked-IsGone s k k p.connection g

  disconnect_locked-KeptOrGone :
      (s : Service C S) (k j : ℕ) (p : ConnectedPlayer C)
      → KeptOrGone j p s
      → KeptOrGone j p (disconnect_locked s k true)
  disconnect_locked-KeptOrGone s k j p (inr g) = inr (disconnect_locked-IsGone s k j p.connection g)
  disconnect_locked-KeptOrGone s k j p (inl e) = elim (ℕ_discrete k j) [
    | yes same ↦ inr (
        subst (λ i. IsGone j p.connection (disconnect_locked s i true)) (sym same)
          (disconnect_locked-ends s j p (inl e)))
    | no other ↦ inl (get-disconnect_locked s k j ∙ ground (arith, other, e))
  ]

  disconnect_if-KeptOrGone :
      (test : Bool) (s : Service C S) (k j : ℕ) (p : ConnectedPlayer C)
      → KeptOrGone j p s
      → KeptOrGone j p (if test then disconnect_locked s k true else s)
  disconnect_if-KeptOrGone true s k j p g = disconnect_locked-KeptOrGone s k j p g
  disconnect_if-KeptOrGone false s k j p g = g

  drop_sessions-KeptOrGone :
      (values : List Session) (s : Service C S) (j : ℕ) (p : ConnectedPlayer C)
      → KeptOrGone j p s
      → KeptOrGone j p (drop_sessions values s)
  unfolding drop_sessions
  drop_sessions-KeptOrGone [] s j p g = g
  drop_sessions-KeptOrGone (value ∷ rest) s j p g =
      drop_sessions-KeptOrGone rest _ j p
        (disconnect_if-KeptOrGone value.bound s value.conn_id j p g)

  -- The loop over the entries keeps what is gone gone, and ends every overdue one that it comes to.
  drop_overdue-IsGone :
      (now : ℕ) (ps : GoMap ℕ (ConnectedPlayer C)) (s : Service C S) (j : ℕ) (c : C)
      → IsGone j c s
      → IsGone j c (drop_overdue now ps s)
  unfolding drop_overdue
  drop_overdue-IsGone now [] s j c g = g
  drop_overdue-IsGone now ((id, q) ∷ rest) s j c g = elim (Bool-cases (overdue q now)) [
    | inl b ↦
        rw (b, drop_overdue)
          (drop_overdue-IsGone now rest _ j c (disconnect_locked-IsGone s id j c g))
    | inr b ↦ rw (b, drop_overdue) (drop_overdue-IsGone now rest s j c g)
  ]

  drop_overdue-ends :
      (now : ℕ) (ps : GoMap ℕ (ConnectedPlayer C)) (s : Service C S) (j : ℕ) (p : ConnectedPlayer C)
      → get j ps ≡ some p
      → overdue p now ≡ true
      → KeptOrGone j p s
      → IsGone j p.connection (drop_overdue now ps s)
  unfolding drop_overdue get
  drop_overdue-ends now [] s j p e late g = absurd (ground (arith, e))
  drop_overdue-ends now ((id, q) ∷ rest) s j p e late g = elim (ℕ_discrete id j) [
    | yes same ↦
        let this : q ≡ p = ground (arith, e, same) in
        let late' : overdue q now ≡ true = subst (λ r. overdue r now ≡ true) (sym this) late in
        rw (late', drop_overdue)
          (drop_overdue-IsGone now rest _ j p.connection (
            subst (λ i. IsGone j p.connection (disconnect_locked s i true)) (sym same)
              (disconnect_locked-ends s j p g)))
    | no other ↦
        drop_overdue-ends now rest _ j p (ground (arith, e, other)) late
          (disconnect_if-KeptOrGone (overdue q now) s id j p g)
  ]

  -- A connection whose time to authenticate is over is gone after Sweep: it has no entry any more, and it
  -- was told to stop.
  pub sweep-ends :
      (s : Service C S) (now k : ℕ) (p : ConnectedPlayer C)
      → get k s.connections ≡ some p
      → overdue p now ≡ true
      → IsGone k p.connection (sweep s now)
  unfolding sweep
  sweep-ends s now k p e late =
      let start : Service C S = record s { sessions = (remove_expired s.sessions now).1 } in
      let removed = (remove_expired s.sessions now).0 in
      let middle = drop_sessions removed start in
      elim (drop_sessions-KeptOrGone removed start k p (inl e)) [
        | inl kept ↦ drop_overdue-ends now middle.connections middle k p kept late (inl kept)
        | inr gone ↦ drop_overdue-IsGone now middle.connections middle k p.connection gone
      ]

  drop_all-IsGone :
      (ids : List ℕ) (s : Service C S) (j : ℕ) (c : C) → IsGone j c s → IsGone j c (drop_all ids s)
  unfolding drop_all
  drop_all-IsGone [] s j c g = g
  drop_all-IsGone (id ∷ ids) s j c g =
      drop_all-IsGone ids _ j c (disconnect_locked-IsGone s id j c g)

  drop_all-ends :
      (ids : List ℕ) (s : Service C S) (j : ℕ) (p : ConnectedPlayer C)
      → elem j ids ≡ true
      → KeptOrGone j p s
      → IsGone j p.connection (drop_all ids s)
  unfolding drop_all
  drop_all-ends [] s j p e g = absurd (ground (arith, e))
  drop_all-ends (id ∷ ids) s j p e g = elim (ℕ_discrete id j) [
    | yes same ↦ drop_all-IsGone ids _ j p.connection (
        subst (λ i. IsGone j p.connection (disconnect_locked s i true)) (sym same)
          (disconnect_locked-ends s j p g))
    | no other ↦
        drop_all-ends ids _ j p (ground (arith, e, other)) (disconnect_locked-KeptOrGone s id j p g)
  ]

  -- After Close every connection that there was is gone and was told to stop.
  pub close_service-ends :
      (s : Service C S) (k : ℕ) (p : ConnectedPlayer C)
      → get k s.connections ≡ some p
      → IsGone k p.connection (close_service s)
  unfolding close_service
  close_service-ends s k p e =
      drop_all-ends (keys s.connections) (record s { closed = true }) k p
        (elem-keys k s.connections ∙ ap is_some e) (inl e)
