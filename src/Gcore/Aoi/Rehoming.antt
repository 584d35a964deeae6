-- ===== src/Gcore/Aoi/Rehoming.antt =====
-- MoveEntity, step by step: the entities and the cell index agree after a move.
use ginx.Prelude.{
  ℕ, ◌≡◌, inl, inr, true, false, ◌&&◌, some, arith, if◌then◌else◌, ◌==◌, nat_eq, Bool-cases,
  Option-cases, ok, Result-cases,
}
use ginx.GoMap.{GoMap, get, put}
use ginx.GoMap.Laws.{get-put, put-IsUnique}
use ginx.Gcore.Aoi.{
  Float64, AoiCell, AoiEntity, AoiManager, AoiChange, Position, cell_eq, cell_beq_iff, IdSet,
  remove_from_cell, cell_for, move_entity, rehome, nearby_locked, difference,
}
use ginx.Gcore.Aoi.Cells.{
  in_cell, in_cell-add, in_cell-remove, IsTidy, add_to_cell-IsTidy, remove_from_cell-IsTidy,
}
use ginx.Gcore.Aoi.Invariant.{IsIndexed, cell_for_update}

module _ (old new : AoiCell) (id : ℕ) (cells : GoMap AoiCell IdSet) where
  pub in_cell-rehome :
      (c : AoiCell) (k : ℕ)
      → in_cell old id cells ≡ true
      → in_cell c k (rehome old new id cells) ≡ (
          if new == c && id == k
          then true
          else if old == c && id == k
          then false
          else in_cell c k cells)
  unfolding rehome
  in_cell-rehome c k h = ground (
    arith,
    cell_beq_iff old new,
    cell_beq_iff new c,
    cell_beq_iff old c,
    in_cell-add new id (remove_from_cell old id cells) c k,
    in_cell-remove old id cells c k,
  )

  rehome-IsTidy : IsTidy cells → IsTidy (rehome old new id cells)
  unfolding rehome
  rehome-IsTidy t = elim (Bool-cases (old == new)) [
    | inl same ↦ rw (same, rehome) t
    | inr other ↦
        rw (other, rehome)
          (add_to_cell-IsTidy new id (remove_from_cell old id cells)
            (remove_from_cell-IsTidy old id cells t))
  ]

module _ {F : Type 0} (float : Float64 F) where
  abbrev pub moved : AoiEntity F → Position F → AoiCell → AoiEntity F
  moved entity p cell = record entity { position = p; cell = cell }

  -- A move that succeeds, step by step.
  pub record Moves (am : AoiManager F) (id : ℕ) (p : Position F) (change : AoiChange)
      (am' : AoiManager F) : Type 0 where
    pub entity : AoiEntity F
    pub cell : AoiCell
    pub found : get id am.entities ≡ some entity
    pub lands : cell_for float am p ≡ ok cell
    pub state : am' ≡ record am {
      entities = put id (moved entity p cell) am.entities;
      cells = rehome entity.cell cell id am.cells;
    }
    pub view : change ≡ record {
      entered =
          difference
            (nearby_locked (moved entity p cell) (rehome entity.cell cell id am.cells))
            (nearby_locked entity am.cells);
      left =
          difference
            (nearby_locked entity am.cells)
            (nearby_locked (moved entity p cell) (rehome entity.cell cell id am.cells));
    }

  module _ (am : AoiManager F) (id : ℕ) (p : Position F) (change : AoiChange)
      (am' : AoiManager F) where
    pub move_entity-Moves : move_entity float am id p ≡ ok (change, am') → Moves am id p change am'
    unfolding move_entity
    move_entity-Moves h = elim (Option-cases (get id am.entities)) [
      | inl e ↦ absurd (ground (arith, h, e))
      | inr (entity, e) ↦ elim (Result-cases (cell_for float am p)) [
        | inr (x, f) ↦ absurd (ground (arith, h, e, f))
        | inl (cell, f) ↦ record {
          entity = entity;
          cell = cell;
          found = e;
          lands = f;
          state = ground (arith, h, e, f);
          view = ground (arith, h, e, f);
        }
      ]
    ]

    pub move_entity-IsIndexed :
        IsIndexed float am → move_entity float am id p ≡ ok (change, am') → IsIndexed float am'
    move_entity-IsIndexed v h =
        let m = move_entity-Moves h in
        let target = moved m.entity p m.cell in
        record {
          unique = ground (arith, m.state, put-IsUnique id target am.entities v.unique);
          tidy = ground (arith, m.state, rehome-IsTidy m.entity.cell m.cell id am.cells v.tidy);
          named = λ k d g. ground (
            arith,
            m.state,
            g,
            get-put k id target am.entities,
            v.named k d,
            v.named id m.entity m.found,
          );
          placed = λ k d g. ground (
            arith,
            m.state,
            m.lands,
            g,
            get-put k id target am.entities,
            v.placed k d,
            cell_for_update float am am'.entities am'.cells d.position,
          );
          indexed = λ c k. ground (
            arith,
            m.state,
            m.found,
            get-put k id target am.entities,
            v.indexed c k,
            v.indexed m.entity.cell id,
            cell_beq_iff m.entity.cell m.entity.cell,
            in_cell-rehome m.entity.cell m.cell id am.cells c k,
          );
        }
