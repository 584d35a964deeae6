-- ===== src/Gcore/Aoi/Places.antt =====
-- Where the entities stand after each operation.
use ginx.Prelude.{
  ℕ, ◌≡◌, refl, ◌≢◌, inl, inr, Option, none, some, [], arith, if◌then◌else◌, ◌==◌, nat_eq,
  string_eq, Option-cases, ok, err, Result-cases, int_eq,
}
use ginx.GoMap.{get}
use ginx.GoMap.Laws.{get-put, get-delete, get_empty}
use ginx.Gcore.Aoi.{
  Float64, AoiError, AoiManager, AoiChange, AoiEntity, Position, new_aoi_manager, add_entity,
  remove_entity, move_entity, get_nearby_entity_ids, cell_for, nearby_locked,
}
use ginx.Gcore.Aoi.Rehoming.{move_entity-Moves, moved}

abbrev pub entity_place : {F : Type 0} → Option (AoiEntity F) → Option (Position F)
entity_place none = none
entity_place (some e) = some e.position

module _ {F : Type 0} (float : Float64 F) (am am' : AoiManager F) (id : ℕ) where
  pub new_aoi_manager-place :
      (world_width world_height cell_width cell_height : F) (k : ℕ)
      → new_aoi_manager float world_width world_height cell_width cell_height ≡ ok am
      → get k am.entities ≡ none
  unfolding new_aoi_manager
  new_aoi_manager-place ww wh cw ch k h =
      let empty : am.entities ≡ [] = ground (arith, h) in
      get_empty {V = AoiEntity F} k am.entities empty

  pub add_entity-place :
      (p : Position F) (k : ℕ)
      → add_entity float am id p ≡ ok am'
      → entity_place (get k am'.entities)
        ≡ (if id == k then some p else entity_place (get k am.entities))
  unfolding add_entity
  add_entity-place p k h = elim (Result-cases (cell_for float am p)) [
    | inr (x, e) ↦ absurd (ground (arith, h, e))
    | inl (cell, e) ↦
        let entity : AoiEntity F = record { id = id; position = p; cell = cell } in
        ground (arith, h, e, get-put k id entity am.entities)
  ]

  pub remove_entity-place :
      (k : ℕ)
      → remove_entity float am id ≡ ok am'
      → entity_place (get k am'.entities)
        ≡ (if id == k then none else entity_place (get k am.entities))
  unfolding remove_entity
  remove_entity-place k h = elim (Option-cases (get id am.entities)) [
    | inl e ↦ absurd (ground (arith, h, e))
    | inr (entity, e) ↦ ground (arith, h, e, get-delete k id am.entities)
  ]

  pub move_entity-place :
      (p : Position F) (change : AoiChange) (k : ℕ)
      → move_entity float am id p ≡ ok (change, am')
      → entity_place (get k am'.entities)
        ≡ (if id == k then some p else entity_place (get k am.entities))
  move_entity-place p change k h =
      let m = move_entity-Moves float am id p change am' h in
      ground (arith, m.state, get-put k id (moved float m.entity p m.cell) am.entities)

module _ {F : Type 0} (float : Float64 F) (am : AoiManager F) (id : ℕ) where
  -- Only an entity that is not there cannot be removed.
  pub remove_entity-ne-err :
      (p : Position F) (x : AoiError)
      → entity_place (get id am.entities) ≡ some p
      → remove_entity float am id ≢ err x
  unfolding remove_entity
  remove_entity-ne-err p x h = elim (Option-cases (get id am.entities)) [
    | inl e ↦ absurd (ground (arith, h, e))
    | inr (entity, e) ↦ ground (arith, e)
  ]

  -- Whether an entity that is there can be moved depends on the position alone.
  pub move_entity-refused :
      (p q : Position F) (x : AoiError)
      → entity_place (get id am.entities) ≡ some q
      → move_entity float am id p ≡ err x
      → cell_for float am p ≡ err x
  unfolding move_entity
  move_entity-refused p q x h e = elim (Option-cases (get id am.entities)) [
    | inl n ↦ absurd (ground (arith, h, n))
    | inr (entity, f) ↦ elim (Result-cases (cell_for float am p)) [
      | inl (cell, g) ↦ absurd (ground (arith, e, f, g))
      | inr (y, g) ↦ ground (arith, e, f, g)
    ]
  ]

  pub get_nearby-found :
      (entity : AoiEntity F)
      → get id am.entities ≡ some entity
      → get_nearby_entity_ids float am id ≡ ok (nearby_locked entity am.cells)
  unfolding get_nearby_entity_ids
  get_nearby-found entity e = rw e refl
