-- ===== src/Gcore/Aoi/History.antt =====
-- Any calls on a manager, one after another.
use ginx.Prelude.{ℕ, ◌≡◌, inl, inr, List, [], ◌∷◌, Result, ok, err, Result-cases}
use ginx.Gcore.Aoi.{
  Float64, AoiManager, AoiChange, AoiError, Position, new_aoi_manager, add_entity, remove_entity,
  move_entity,
}
use ginx.Gcore.Aoi.Invariant.{
  IsIndexed, new_aoi_manager-IsIndexed, add_entity-IsIndexed, remove_entity-IsIndexed,
}
use ginx.Gcore.Aoi.Rehoming.{move_entity-IsIndexed}

module _ {F : Type 0} (float : Float64 F) where
  -- The calls that change a manager; one that fails leaves it as it was.
  pub data AoiCall : Type 0 where
    adds : ℕ → Position F → AoiCall
    removes : ℕ → AoiCall
    moves : ℕ → Position F → AoiCall

  abbrev after : AoiManager F → Result AoiError (AoiManager F) → AoiManager F
  after am (ok am') = am'
  after am (err e) = am

  abbrev after_move : AoiManager F → Result AoiError (AoiChange × AoiManager F) → AoiManager F
  after_move am (ok (change, am')) = am'
  after_move am (err e) = am

  unfoldable pub step : AoiManager F → AoiCall → AoiManager F
  step am (adds id p) = after am (add_entity float am id p)
  step am (removes id) = after am (remove_entity float am id)
  step am (moves id p) = after_move am (move_entity float am id p)

  -- Every operation keeps the entities and the cell index in agreement.
  pub step-IsIndexed :
      (am : AoiManager F) (c : AoiCall) → IsIndexed float am → IsIndexed float (step am c)
  unfolding step
  step-IsIndexed am (adds id p) v = elim (Result-cases (add_entity float am id p)) [
    | inl (am', e) ↦ rw e (add_entity-IsIndexed float am v id am' p e)
    | inr (x, e) ↦ rw e v
  ]
  step-IsIndexed am (removes id) v = elim (Result-cases (remove_entity float am id)) [
    | inl (am', e) ↦ rw e (remove_entity-IsIndexed float am v id am' e)
    | inr (x, e) ↦ rw e v
  ]
  step-IsIndexed am (moves id p) v = elim (Result-cases (move_entity float am id p)) [
    | inl ((change, am'), e) ↦ rw e (move_entity-IsIndexed float am id p change am' v e)
    | inr (x, e) ↦ rw e v
  ]

  unfoldable pub run : AoiManager F → List AoiCall → AoiManager F
  run am [] = am
  run am (c ∷ cs) = run (step am c) cs

  pub run-IsIndexed :
      (am : AoiManager F) (cs : List AoiCall) → IsIndexed float am → IsIndexed float (run am cs)
  unfolding run
  run-IsIndexed am [] v = v
  run-IsIndexed am (c ∷ cs) v = run-IsIndexed (step am c) cs (step-IsIndexed am c v)

  -- After any calls on a new manager every entity is held once, under its own identifier, in the
  -- cell of its position; an identifier is in the index of a cell exactly if its entity lives
  -- there; and no indexed cell is empty.
  pub run-new_aoi_manager-IsIndexed :
      (world_width world_height cell_width cell_height : F) (am : AoiManager F) (cs : List AoiCall)
      → new_aoi_manager float world_width world_height cell_width cell_height ≡ ok am
      → IsIndexed float (run am cs)
  run-new_aoi_manager-IsIndexed ww wh cw ch am cs h =
      run-IsIndexed am cs (new_aoi_manager-IsIndexed float ww wh cw ch am h)
