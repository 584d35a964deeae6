-- ===== src/Gnet/ConnManager/Registry.antt =====
-- Every connection under its own identifier and within the limit; the clearing stops all of them.
use ginx.Prelude.{
  ℕ, ◌≤◌, ◌≡◌, inl, inr, true, false, ◌&&◌, Option, none, some, List, [], ◌∷◌, arith, leb, nat_eq,
  Result, ok, err, Result-cases, is_positive, to_nat,
}
use ginx.GoMap.{get, put, has, size, IsUnique}
use ginx.GoMap.Laws.{get-put, get-delete, size-put, put-IsUnique, delete-IsUnique, size-delete}
use ginx.Gnet.Config.{Config}
use ginx.Gnet.ConnManager.{
  ConnManager, ConnError, new_conn_manager, max_conn_of, add, remove, clear_conn,
}

module _ {C : Type 0} (get_conn_id : C → ℕ) (global : Config) where
  pub record IsWf (cm : ConnManager C) : Type 0 where
    pub unique : IsUnique cm.connections
    pub keyed : (k : ℕ) (c : C) → get k cm.connections ≡ some c → get_conn_id c ≡ k
    pub bounded :
        is_positive (max_conn_of global cm) ≡ true
        → size cm.connections ≤ to_nat (max_conn_of global cm)

  pub new_conn_manager-IsWf : (config : Option Config) → IsWf (new_conn_manager config)
  unfolding new_conn_manager get
  new_conn_manager-IsWf config = record {
    unique = tt;
    keyed = λ k c e. cc;
    bounded = λ h. omega arith;
  }

  pub add_accepts :
      (cm cm' : ConnManager C) (c : C)
      → add get_conn_id global cm (some c) ≡ ok cm'
      → (has (get_conn_id c) cm.connections ≡ false)
        × ((is_positive (max_conn_of global cm)
              && leb (to_nat (max_conn_of global cm)) (size cm.connections))
            ≡ false)
        × (cm' ≡ record cm { connections = put (get_conn_id c) c cm.connections })
  unfolding add
  add_accepts cm cm' c h = ground arith

  pub add-IsWf :
      (cm cm' : ConnManager C) (c : C)
      → IsWf cm
      → add get_conn_id global cm (some c) ≡ ok cm'
      → IsWf cm'
  add-IsWf cm cm' c w h =
      let (new, below, e) = add_accepts cm cm' c h in
      record {
        unique = ground (arith, e, put-IsUnique (get_conn_id c) c cm.connections w.unique);
        keyed =
            λ k d g. ground (arith, e, g, get-put k (get_conn_id c) c cm.connections, w.keyed k d);
        bounded = λ p. ground (arith, e, p, new, below, size-put (get_conn_id c) c cm.connections);
      }

  pub remove-IsWf : (cm : ConnManager C) (id : ℕ) → IsWf cm → IsWf (remove cm id)
  unfolding remove
  remove-IsWf cm id w = record {
    unique = delete-IsUnique id cm.connections w.unique;
    keyed = λ k d g. ground (arith, g, get-delete k id cm.connections, w.keyed k d);
    bounded = λ p. ground (arith, p, w.bounded p, size-delete id cm.connections w.unique);
  }

  pub clear_conn-IsWf :
      {W : Type 0} (stop : C → W → W) (cm : ConnManager C) (w₀ : W) → IsWf (clear_conn stop cm w₀).0
  unfolding clear_conn get
  clear_conn-IsWf stop cm w₀ = record {
    unique = tt;
    keyed = λ k c e. cc;
    bounded = λ h. omega arith;
  }

  -- The calls that change a manager.
  pub data ConnCall : Type 0 where
    adds : Option C → ConnCall
    removes : ℕ → ConnCall
    clears : ConnCall

  abbrev after : ConnManager C → Result ConnError (ConnManager C) → ConnManager C
  after cm (ok cm') = cm'
  after cm (err e) = cm

  unfoldable pub step : ConnManager C → ConnCall → ConnManager C
  step cm (adds c) = after cm (add get_conn_id global cm c)
  step cm (removes id) = remove cm id
  step cm clears = (clear_conn (λ c w. w) cm tt).0

  unfoldable pub run : ConnManager C → List ConnCall → ConnManager C
  run cm [] = cm
  run cm (c ∷ cs) = run (step cm c) cs

  step-IsWf : (cm : ConnManager C) (c : ConnCall) → IsWf cm → IsWf (step cm c)
  unfolding step add
  step-IsWf cm (adds none) w = w
  step-IsWf cm (adds (some c)) w = elim (Result-cases (add get_conn_id global cm (some c))) [
    | inl (cm', e) ↦ rw e (add-IsWf cm cm' c w e)
    | inr (x, e) ↦ rw e w
  ]
  step-IsWf cm (removes id) w = remove-IsWf cm id w
  step-IsWf cm clears w = clear_conn-IsWf (λ c w. w) cm tt

  run-IsWf : (cm : ConnManager C) (cs : List ConnCall) → IsWf cm → IsWf (run cm cs)
  unfolding run
  run-IsWf cm [] w = w
  run-IsWf cm (c ∷ cs) w = run-IsWf (step cm c) cs (step-IsWf cm c w)

  -- After any calls on a new manager each connection is held once, under its own identifier, and a
  -- positive limit is not exceeded.
  pub run-new_conn_manager-IsWf :
      (config : Option Config) (cs : List ConnCall) → IsWf (run (new_conn_manager config) cs)
  run-new_conn_manager-IsWf config cs =
      run-IsWf (new_conn_manager config) cs (new_conn_manager-IsWf config)
