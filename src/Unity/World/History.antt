-- ===== src/Unity/World/History.antt =====
-- Any sequence of calls on a new world, and which of them can fail.
use ginx.Prelude.{
  ℕ, ◌≡◌, refl, sym, subst, ◌⊎◌, inl, inr, Option, none, some, List, [], ◌∷◌, arith, nat_eq,
  string_eq, Option-cases, ok, err, Result-cases, ℤ, int_eq,
}
use ginx.GoMap.{get}
use ginx.Gcore.Aoi.{Float64, AoiError, cell_for, remove_entity, move_entity}
use ginx.Gcore.Aoi.Places.{remove_entity-ne-err, move_entity-refused}
use ginx.Unity.Messages.Position.{UnityPosition}
use ginx.Unity.World.{
  WorldError, player_not_found, aoi_error, UnityWorld, new_unity_world_with_aoi,
  add_player_with_pid, remove_player_with_visibility, update_player_with_visibility, aoi_position,
  from_aoi,
}
use ginx.Unity.World.Online.{IsOnline, new_unity_world-IsOnline}
use ginx.Unity.World.Keeping.{
  add_player_with_pid-IsOnline, remove_player-IsOnline, update_player-IsOnline,
}

pub data WorldCall (C : Type 0) : Type 0 where
  adds : Option C → ℤ → WorldCall C
  removes : ℕ → WorldCall C
  updates : ℕ → UnityPosition → ℤ → WorldCall C

module _ {F C : Type 0} (float : Float64 F) (float64_of : ℕ → F) (get_conn_id : C → ℕ) where
  -- The world after a call: as it was, when the call fails.
  unfoldable pub step : UnityWorld F C → WorldCall C → UnityWorld F C
  step w (adds connection pid) =
      elim (add_player_with_pid float float64_of get_conn_id w connection pid) [
        | ok (_, _, w') ↦ w'
        | err x ↦ w
      ]
  step w (removes id) = elim (remove_player_with_visibility float float64_of get_conn_id w id) [
    | ok (_, _, w') ↦ w'
    | err x ↦ w
  ]
  step w (updates id position action_data) =
      elim (update_player_with_visibility float float64_of get_conn_id w id position action_data) [
        | ok (_, w') ↦ w'
        | err x ↦ w
      ]

  unfoldable pub run : UnityWorld F C → List (WorldCall C) → UnityWorld F C
  unfolding step
  run w [] = w
  run w (c ∷ cs) = run (step w c) cs

  step_nil : (w : UnityWorld F C) (pid : ℤ) → step w (adds none pid) ≡ w
  unfolding step add_player_with_pid
  step_nil w pid = refl

  step-IsOnline :
      (w : UnityWorld F C) (c : WorldCall C)
      → IsOnline float float64_of get_conn_id w
      → IsOnline float float64_of get_conn_id (step w c)
  unfolding step
  step-IsOnline w (adds none pid) v =
      subst (IsOnline float float64_of get_conn_id) (sym (step_nil w pid)) v
  step-IsOnline w (adds (some c) pid) v =
      elim (Result-cases (add_player_with_pid float float64_of get_conn_id w (some c) pid)) [
        | inl ((p, near, w'), e) ↦
            rw (e, step)
              (add_player_with_pid-IsOnline float float64_of get_conn_id w w' v c pid p near e)
        | inr (x, e) ↦ rw (e, step) v
      ]
  step-IsOnline w (removes id) v =
      elim (Result-cases (remove_player_with_visibility float float64_of get_conn_id w id)) [
        | inl ((p, near, w'), e) ↦
            rw (e, step) (remove_player-IsOnline float float64_of get_conn_id w w' v id p near e)
        | inr (x, e) ↦ rw (e, step) v
      ]
  step-IsOnline w (updates id position action_data) v =
      elim (Result-cases
        (update_player_with_visibility float float64_of get_conn_id w id position action_data)) [
          | inl ((result, w'), e) ↦
              rw (e, step)
                (update_player-IsOnline float float64_of get_conn_id w w' v id position action_data
                  result e)
          | inr (x, e) ↦ rw (e, step) v
        ]

  run-IsOnline :
      (w : UnityWorld F C) (cs : List (WorldCall C))
      → IsOnline float float64_of get_conn_id w
      → IsOnline float float64_of get_conn_id (run w cs)
  unfolding run
  run-IsOnline w [] v = v
  run-IsOnline w (c ∷ cs) v = run-IsOnline (step w c) cs (step-IsOnline w c v)

  -- After any calls on a new world: every player stands under its connection's identifier, PIDs and
  -- players point to each other one to one, and the grid holds exactly the players, where they stand.
  pub run-new_unity_world-IsOnline :
      (world_width world_height cell_width cell_height : F) (w : UnityWorld F C)
      (cs : List (WorldCall C))
      → new_unity_world_with_aoi float float64_of get_conn_id world_width world_height cell_width
          cell_height
        ≡ ok w
      → IsOnline float float64_of get_conn_id (run w cs)
  run-new_unity_world-IsOnline ww wh cw ch w cs h =
      run-IsOnline w cs (new_unity_world-IsOnline float float64_of get_conn_id ww wh cw ch w h)

  -- In a world whose maps agree, the only player that cannot be removed is one that is not online: the
  -- grid never refuses.
  pub remove_player-refused :
      (w : UnityWorld F C) (id : ℕ) (x : WorldError)
      → IsOnline float float64_of get_conn_id w
      → remove_player_with_visibility float float64_of get_conn_id w id ≡ err x
      → (get id w.players ≡ none) × (x ≡ player_not_found)
  unfolding remove_player_with_visibility from_aoi
  remove_player-refused w id x v h = elim (Option-cases (get id w.players)) [
    | inl n ↦ (n, ground (arith, h, n))
    | inr (p, f) ↦ elim (Result-cases (remove_entity float w.aoi id)) [
      | inl (aoi, e) ↦ absurd (ground (arith, h, f, e))
      | inr (y, e) ↦ absurd (
          remove_entity-ne-err float w.aoi id (aoi_position float64_of p.position) y
            (ground (arith, f, v.located id)) e)
    ]
  ]

  -- In a world whose maps agree, an update is refused exactly for a player that is not online, or for a
  -- place that the grid does not accept.
  pub update_player-refused :
      (w : UnityWorld F C) (id : ℕ) (position : UnityPosition) (action_data : ℤ) (x : WorldError)
      → IsOnline float float64_of get_conn_id w
      → update_player_with_visibility float float64_of get_conn_id w id position action_data ≡ err x
      → ((get id w.players ≡ none) × (x ≡ player_not_found))
        ⊎ ((y : AoiError) × (cell_for float w.aoi (aoi_position float64_of position) ≡ err y)
            × (x ≡ aoi_error y))
  unfolding update_player_with_visibility from_aoi
  update_player-refused w id position action_data x v h = elim (Option-cases (get id w.players)) [
    | inl n ↦ inl (n, ground (arith, h, n))
    | inr (p, f) ↦
        elim (Result-cases (move_entity float w.aoi id (aoi_position float64_of position))) [
          | inl (_, e) ↦ absurd (ground (arith, h, f, e))
          | inr (y, e) ↦ inr (
            y,
            move_entity-refused float w.aoi id (aoi_position float64_of position)
                (aoi_position float64_of p.position) y (ground (arith, f, v.located id)) e,
            ground (arith, h, f, e),
          )
        ]
  ]
