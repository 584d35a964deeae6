-- ===== src/Gnet/WorkerPool/Order.antt =====
-- The requests of one connection keep their order through the pool.
use ginx.Prelude.{
  ℕ, ◌%◌, ◌≤◌, ◌<◌, ◌≡◌, refl, sym, ap, subst, ◌∙◌, inl, inr, false, List, [], ◌∷◌, ◌++◌, arith,
  nat_beq, ◌==◌, nat_eq, Bool-cases, length, length-append, All, filter_by, append-nil,
  append_assoc, filter_by-append,
}
use ginx.Gnet.WorkerPool.{set_queue}

module _ {R : Type 0} (get_conn_id : R → ℕ) where
  abbrev pub of_conn : ℕ → List R → List R
  of_conn c rs = filter_by (λ r. get_conn_id r == c) rs

  -- What was accepted of a connection is what was handled of it and then what waits for its worker.
  pub record IsOrdered (size capacity : ℕ) (queues : ℕ → List R) (accepted handled : List R)
      : Type 0 where
    pub routed : (i : ℕ) → All (λ r. get_conn_id r % size ≡ i) (queues i)
    pub bounded : (i : ℕ) → length (queues i) ≤ capacity
    pub in_order : (c : ℕ) → of_conn c accepted ≡ of_conn c handled ++ of_conn c (queues (c % size))

  All-append-one : (P : R → Type 0) (xs : List R) (r : R) → All P xs → P r → All P (xs ++ r ∷ [])
  All-append-one P [] r a p = (p, tt)
  All-append-one P (x ∷ xs) r a p = (a.0, All-append-one P xs r a.1 p)

  module _ (size capacity : ℕ) (queues : ℕ → List R) (accepted handled : List R)
      (v : IsOrdered size capacity queues accepted handled) where
    -- The queue that a connection uses grows by its own requests only.
    grown :
        (r : R) (c : ℕ)
        → of_conn c (
            set_queue queues
              (get_conn_id r % size)
              (queues (get_conn_id r % size) ++ r ∷ [])
              (c % size))
          ≡ of_conn c (queues (c % size)) ++ of_conn c (r ∷ [])
    grown r c = elim (Bool-cases (nat_beq (get_conn_id r % size) (c % size))) [
      | inl e ↦
          let same : get_conn_id r % size ≡ c % size = ground (arith, e) in
          rw e (
            ap (λ i. of_conn c (queues i ++ r ∷ [])) same
            ∙ filter_by-append (λ s. get_conn_id s == c) (queues (c % size)) (r ∷ []))
      | inr e ↦
          let other : nat_beq (get_conn_id r) c ≡ false = ground (arith, e) in
          rw (e, other) (sym (append-nil (of_conn c (queues (c % size)))))
    ]

    pub put_behind :
        (r : R)
        → length (queues (get_conn_id r % size)) < capacity
        → IsOrdered size capacity
            (set_queue queues (get_conn_id r % size) (queues (get_conn_id r % size) ++ r ∷ []))
            (accepted ++ r ∷ [])
            handled
    put_behind r room = record {
      routed = λ i. elim (Bool-cases (nat_beq (get_conn_id r % size) i)) [
        | inl e ↦ rw e (
            All-append-one _ (queues (get_conn_id r % size)) r
              (subst (λ j. All (λ s. get_conn_id s % size ≡ j) (queues (get_conn_id r % size)))
                (ground (arith, e)) (v.routed (get_conn_id r % size)))
              (ground (arith, e)))
        | inr e ↦ rw e (v.routed i)
      ];
      bounded = λ i.
          ground (arith, v.bounded i, length-append (queues (get_conn_id r % size)) (r ∷ []), room);
      in_order = λ c.
          filter_by-append (λ s. get_conn_id s == c) accepted (r ∷ [])
          ∙ ap (λ xs. xs ++ of_conn c (r ∷ [])) (v.in_order c)
          ∙ append_assoc (of_conn c handled) (of_conn c (queues (c % size))) (of_conn c (r ∷ []))
          ∙ ap (λ xs. of_conn c handled ++ xs) (sym (grown r c));
    }

    pub take_front :
        (i : ℕ) (r : R) (rest : List R)
        → queues i ≡ r ∷ rest
        → IsOrdered size capacity (set_queue queues i rest) accepted (handled ++ r ∷ [])
    take_front i r rest q =
        let mine : All (λ s. get_conn_id s % size ≡ i) (r ∷ rest) =
          subst (All (λ s. get_conn_id s % size ≡ i)) q (v.routed i) in
        record {
          routed = λ j. elim (Bool-cases (nat_beq i j)) [
            | inl e ↦
                rw e
                  (subst (λ k. All (λ s. get_conn_id s % size ≡ k) rest) (ground (arith, e)) mine.1)
            | inr e ↦ rw e (v.routed j)
          ];
          bounded = λ j. ground (arith, v.bounded j, q);
          in_order = λ c.
              v.in_order c
              ∙ ap (λ xs. of_conn c handled ++ xs) (shrunk i r rest c q mine.0)
              ∙ sym (
                  append_assoc (of_conn c handled) (of_conn c (r ∷ []))
                    (of_conn c (set_queue queues i rest (c % size))))
              ∙ ap (λ xs. xs ++ of_conn c (set_queue queues i rest (c % size)))
                  (sym (filter_by-append (λ s. get_conn_id s == c) handled (r ∷ [])));
        }
      where
        shrunk :
            (i : ℕ) (r : R) (rest : List R) (c : ℕ)
            → queues i ≡ r ∷ rest
            → get_conn_id r % size ≡ i
            → of_conn c (queues (c % size))
              ≡ of_conn c (r ∷ []) ++ of_conn c (set_queue queues i rest (c % size))
        shrunk i r rest c q m = elim (Bool-cases (nat_beq i (c % size))) [
          | inl e ↦
              let same : i ≡ c % size = ground (arith, e) in
              ap (λ j. of_conn c (queues j)) (sym same)
              ∙ ap (of_conn c) q
              ∙ filter_by-append (λ s. get_conn_id s == c) (r ∷ []) rest
              ∙ ap (λ xs. of_conn c (r ∷ []) ++ of_conn c xs) (rw e refl)
          | inr e ↦
              let other : nat_beq (get_conn_id r) c ≡ false = ground (arith, e, m) in
              rw (e, other) refl
        ]
