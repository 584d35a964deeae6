-- ===== src/Unity/World/Online.antt =====
-- The maps of the players, of their PIDs and of their places agree, after every operation.
use ginx.Prelude.{
  ℕ, ◌≡◌, sym, subst, inl, inr, Bool, true, false, Option, none, some, arith, ◌==◌, nat_eq,
  string_eq, ok, Result-cases, ℤ, int_eq,
}
use ginx.GoMap.{get, IsUnique}
use ginx.GoMap.Laws.{get_empty}
use ginx.Gcore.Aoi.{Float64, Position, new_aoi_manager}
use ginx.Gcore.Aoi.Invariant.{IsIndexed, new_aoi_manager-IsIndexed}
use ginx.Gcore.Aoi.Places.{entity_place, new_aoi_manager-place}
use ginx.Unity.World.{
  UnityWorldPlayer, UnityWorld, from_aoi, new_unity_world_with_aoi, aoi_position,
}

abbrev pub has_pid : {C : Type 0} → ℤ → Option (UnityWorldPlayer C) → Bool
has_pid pid none = false
has_pid pid (some p) = p.pid == pid

module _ {F C : Type 0} (float64_of : ℕ → F) where
  abbrev pub place_of : Option (UnityWorldPlayer C) → Option (Position F)
  place_of none = none
  place_of (some p) = some (aoi_position float64_of p.position)

module _ {F C : Type 0} (float : Float64 F) (float64_of : ℕ → F) (get_conn_id : C → ℕ) where
  -- Each player stands under its connection's identifier, its PID points back to it, every PID points
  -- to a player that has it, and the grid holds exactly the players, where they stand.
  pub record IsOnline (w : UnityWorld F C) : Type 0 where
    pub unique : IsUnique w.players
    pub own_id : (k : ℕ) (p : UnityWorldPlayer C) → get k w.players ≡ some p → p.conn_id ≡ k
    pub own_connection :
        (k : ℕ) (p : UnityWorldPlayer C) → get k w.players ≡ some p → get_conn_id p.connection ≡ k
    pub has_entry :
        (k : ℕ) (p : UnityWorldPlayer C)
        → get k w.players ≡ some p
        → get p.pid w.player_ids ≡ some k
    pub has_player :
        (pid : ℤ) (k : ℕ) → get pid w.player_ids ≡ some k → has_pid pid (get k w.players) ≡ true
    pub located :
        (k : ℕ) → entity_place (get k w.aoi.entities) ≡ place_of float64_of (get k w.players)
    pub indexed : IsIndexed float w.aoi

  pub new_unity_world-IsOnline :
      (world_width world_height cell_width cell_height : F) (w : UnityWorld F C)
      → new_unity_world_with_aoi float float64_of get_conn_id world_width world_height cell_width
          cell_height
        ≡ ok w
      → IsOnline w
  unfolding new_unity_world_with_aoi from_aoi
  new_unity_world-IsOnline ww wh cw ch w h =
      elim (Result-cases (new_aoi_manager float ww wh cw ch)) [
        | inr (x, e) ↦ absurd (ground (arith, h, e))
        | inl (aoi, e) ↦
            let no_players : (k : ℕ) → get k w.players ≡ none =
              λ k. get_empty {V = UnityWorldPlayer C} k w.players (ground (arith, h, e)) in
            let no_ids : (pid : ℤ) → get pid w.player_ids ≡ none =
              λ pid. get_empty {V = ℕ} pid w.player_ids (ground (arith, h, e)) in
            let same : w.aoi ≡ aoi = ground (arith, h, e) in
            record {
              unique = ground (arith, h, e);
              own_id = λ k p g. ground (arith, g, no_players k);
              own_connection = λ k p g. ground (arith, g, no_players k);
              has_entry = λ k p g. ground (arith, g, no_players k);
              has_player = λ pid k g. ground (arith, g, no_ids pid);
              located = λ k. ground (
                arith,
                same,
                no_players k,
                new_aoi_manager-place float aoi aoi 0 ww wh cw ch k e,
              );
              indexed =
                  subst (IsIndexed float) (sym same)
                    (new_aoi_manager-IsIndexed float ww wh cw ch aoi e);
            }
      ]
