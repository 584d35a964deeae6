-- ===== src/Gcore/Aoi/Invariant.antt =====
-- The entities and the cell index agree, after every operation.
use ginx.Prelude.{
  ℕ, ◌≡◌, refl, inl, inr, Bool, false, Option, none, some, [], arith, ◌==◌, nat_eq, Option-cases,
  ok, Result-cases,
}
use ginx.GoMap.{GoMap, get, put, delete, has, IsUnique}
use ginx.GoMap.Laws.{get-put, get-delete, put-IsUnique, delete-IsUnique, get_empty}
use ginx.Gcore.Aoi.{
  Float64, AoiCell, AoiEntity, AoiManager, Position, cell_eq, IdSet, add_to_cell, remove_from_cell,
  new_aoi_manager, cell_for, add_entity, remove_entity,
}
use ginx.Gcore.Aoi.Cells.{
  in_cell, in_cell-add, in_cell-remove, IsTidy, add_to_cell-IsTidy, remove_from_cell-IsTidy,
}

abbrev pub lives_in : {F : Type 0} → Option (AoiEntity F) → AoiCell → Bool
lives_in none c = false
lives_in (some e) c = e.cell == c

module _ {F : Type 0} (float : Float64 F) where
  -- An entity stands under its own identifier, in the cell of its position, and in no other cell;
  -- the index holds nothing else.
  pub record IsIndexed (am : AoiManager F) : Type 0 where
    pub unique : IsUnique am.entities
    pub tidy : IsTidy am.cells
    pub named : (k : ℕ) (e : AoiEntity F) → get k am.entities ≡ some e → e.id ≡ k
    pub placed :
        (k : ℕ) (e : AoiEntity F)
        → get k am.entities ≡ some e
        → cell_for float am e.position ≡ ok e.cell
    pub indexed : (c : AoiCell) (k : ℕ) → in_cell c k am.cells ≡ lives_in (get k am.entities) c

  pub new_aoi_manager-IsIndexed :
      (world_width world_height cell_width cell_height : F) (am : AoiManager F)
      → new_aoi_manager float world_width world_height cell_width cell_height ≡ ok am
      → IsIndexed am
  unfolding new_aoi_manager
  new_aoi_manager-IsIndexed ww wh cw ch am h =
      let blank : AoiManager F = record {
        world_width = ww;
        world_height = wh;
        cell_width = cw;
        cell_height = ch;
        entities = [];
        cells = [];
      } in
      let same : am ≡ blank = ground (arith, h) in
      rw same (record {
        unique = tt;
        tidy = record {
          unique = tt;
          sets = λ c ids e. ground (arith, e, get_empty {V = IdSet} c [] refl);
        };
        named = λ k e g. ground (arith, g, get_empty {V = AoiEntity F} k [] refl);
        placed = λ k e g. ground (arith, g, get_empty {V = AoiEntity F} k [] refl);
        indexed = λ c k. ground (
          arith,
          get_empty {V = IdSet} c [] refl,
          get_empty {V = Unit {0}} k [] refl,
          get_empty {V = AoiEntity F} k [] refl,
        );
      })

  -- Where a position lies depends on the sizes alone.
  pub cell_for_update :
      (am : AoiManager F) (es : GoMap ℕ (AoiEntity F)) (cs : GoMap AoiCell IdSet) (p : Position F)
      → cell_for float (record am { entities = es; cells = cs }) p ≡ cell_for float am p
  unfolding cell_for
  cell_for_update am es cs p = refl

  module _ (am : AoiManager F) (v : IsIndexed am) (id : ℕ) where
    pub add_entity-IsIndexed :
        (am' : AoiManager F) (p : Position F) → add_entity float am id p ≡ ok am' → IsIndexed am'
    unfolding add_entity
    add_entity-IsIndexed am' p h = elim (Result-cases (cell_for float am p)) [
      | inr (x, e) ↦ absurd (ground (arith, h, e))
      | inl (cell, e) ↦
          let entity : AoiEntity F = record { id = id; position = p; cell = cell } in
          let new : has id am.entities ≡ false = ground (arith, h) in
          let same : am' ≡ record am {
            entities = put id entity am.entities;
            cells = add_to_cell cell id am.cells;
          } =
            ground (arith, h, e, new) in
          record {
            unique = ground (arith, same, put-IsUnique id entity am.entities v.unique);
            tidy = ground (arith, same, add_to_cell-IsTidy cell id am.cells v.tidy);
            named = λ k d g. ground (arith, same, g, get-put k id entity am.entities, v.named k d);
            placed = λ k d g. ground (
              arith,
              same,
              g,
              e,
              get-put k id entity am.entities,
              v.placed k d,
              cell_for_update am am'.entities am'.cells d.position,
            );
            indexed = λ c k. ground (
              arith,
              same,
              new,
              get-put k id entity am.entities,
              in_cell-add cell id am.cells c k,
              v.indexed c k,
            );
          }
    ]

    pub remove_entity-IsIndexed :
        (am' : AoiManager F) → remove_entity float am id ≡ ok am' → IsIndexed am'
    unfolding remove_entity
    remove_entity-IsIndexed am' h = elim (Option-cases (get id am.entities)) [
      | inl e ↦ absurd (ground (arith, h, e))
      | inr (entity, e) ↦
          let same : am' ≡ record am {
            cells = remove_from_cell entity.cell id am.cells;
            entities = delete id am.entities;
          } =
            ground (arith, h, e) in
          record {
            unique = ground (arith, same, delete-IsUnique id am.entities v.unique);
            tidy = ground (arith, same, remove_from_cell-IsTidy entity.cell id am.cells v.tidy);
            named = λ k d g. ground (arith, same, g, get-delete k id am.entities, v.named k d);
            placed = λ k d g. ground (
              arith,
              same,
              g,
              get-delete k id am.entities,
              v.placed k d,
              cell_for_update am am'.entities am'.cells d.position,
            );
            indexed = λ c k. ground (
              arith,
              same,
              e,
              get-delete k id am.entities,
              in_cell-remove entity.cell id am.cells c k,
              v.indexed c k,
            );
          }
    ]
