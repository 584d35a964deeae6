-- ===== src/Gcore/Aoi/Examples.antt =====
-- A grid of whole coordinates, and the theorems on it.
use ginx.Prelude.{
  ℕ, ◌/◌, ◌≡◌, refl, subst, false, not, ◌&&◌, List, [], ◌∷◌, ltb, leb, ◌==◌, nat_eq, elem, ok, pos,
}
use ginx.GoMap.{get, put, delete}
use ginx.Sort.{sort, IsSorted}
use ginx.Gcore.Aoi.{
  Float64, cell_eq, AoiEntity, AoiManager, AoiChange, Position, difference, move_entity,
  nearby_locked, new_aoi_manager, add_entity, get_nearby_entity_ids, cell_for, remove_from_cell,
  add_to_cell,
}
use ginx.Gcore.Aoi.Invariant.{IsIndexed}
use ginx.Gcore.Aoi.History.{AoiCall, adds, run, step, run-new_aoi_manager-IsIndexed}
use ginx.Gcore.Aoi.Nearby.{visible, nearby_locked-visible}
use ginx.Gcore.Aoi.Move.{move_entity-IsChange, IsChange}

-- Whole, finite coordinates from 0 up.
abbrev whole : Float64 ℕ
whole = record {
  origin = 0;
  is_nan = λ x. false;
  is_inf = λ x. false;
  lt = ltb;
  le = leb;
  cell_index = λ x w. pos (x / w);
}

abbrev at_point : ℕ → ℕ → Position ℕ
at_point x y = record { x = x; y = y }

abbrev blank : AoiManager ℕ
blank = record {
  world_width = 100;
  world_height = 100;
  cell_width = 10;
  cell_height = 10;
  entities = [];
  cells = [];
}

new_blank : new_aoi_manager whole 100 100 10 10 ≡ ok blank
unfolding new_aoi_manager
new_blank = refl

abbrev calls : List (AoiCall whole)
calls = adds 1 (at_point 5 5) ∷ adds 2 (at_point 15 5) ∷ adds 3 (at_point 55 55) ∷ []

abbrev crowd : AoiManager ℕ
crowd = record blank {
  entities =
      (1, record { id = 1; position = at_point 5 5; cell = record { x = pos 0; y = pos 0 } })
      ∷ (2, record { id = 2; position = at_point 15 5; cell = record { x = pos 1; y = pos 0 } })
      ∷ (3, record { id = 3; position = at_point 55 55; cell = record { x = pos 5; y = pos 5 } })
      ∷ [];
  cells =
      (record { x = pos 0; y = pos 0 }, (1, tt) ∷ [])
      ∷ (record { x = pos 1; y = pos 0 }, (2, tt) ∷ [])
      ∷ (record { x = pos 5; y = pos 5 }, (3, tt) ∷ [])
      ∷ [];
}

crowd-run : run whole blank calls ≡ crowd
unfolding run step add_entity add_to_cell cell_for get put
crowd-run = refl

run-new_aoi_manager-IsIndexed_example : IsIndexed whole (run whole blank calls)
run-new_aoi_manager-IsIndexed_example =
    run-new_aoi_manager-IsIndexed whole 100 100 10 10 blank calls new_blank

crowd-IsIndexed : IsIndexed whole crowd
crowd-IsIndexed =
    subst (IsIndexed whole) crowd-run
      (run-new_aoi_manager-IsIndexed whole 100 100 10 10 blank calls new_blank)

abbrev first : AoiEntity ℕ
first = record { id = 1; position = at_point 5 5; cell = record { x = pos 0; y = pos 0 } }

abbrev second : AoiEntity ℕ
second = record { id = 2; position = at_point 15 5; cell = record { x = pos 1; y = pos 0 } }

first_sees : nearby_locked first crowd.cells ≡ 2 ∷ []
unfolding nearby_locked get sort
first_sees = refl

nearby_locked-visible_example :
    IsSorted (nearby_locked first crowd.cells)
    × ((k : ℕ)
        → elem k (nearby_locked first crowd.cells)
          ≡ (visible first.cell (get k crowd.entities) && not (k == 1)))
nearby_locked-visible_example =
    nearby_locked-visible whole crowd crowd-IsIndexed 1 first (unfold get in refl)

abbrev crossed : AoiManager ℕ
crossed = record crowd {
  entities =
      (1, record { id = 1; position = at_point 45 45; cell = record { x = pos 4; y = pos 4 } })
      ∷ (2, record { id = 2; position = at_point 15 5; cell = record { x = pos 1; y = pos 0 } })
      ∷ (3, record { id = 3; position = at_point 55 55; cell = record { x = pos 5; y = pos 5 } })
      ∷ [];
  cells =
      (record { x = pos 1; y = pos 0 }, (2, tt) ∷ [])
      ∷ (record { x = pos 5; y = pos 5 }, (3, tt) ∷ [])
      ∷ (record { x = pos 4; y = pos 4 }, (1, tt) ∷ [])
      ∷ [];
}

abbrev crossing : AoiChange
crossing = record { entered = 3 ∷ []; left = 2 ∷ [] }

crossing_run : move_entity whole crowd 1 (at_point 45 45) ≡ ok (crossing, crossed)
unfolding move_entity remove_from_cell add_to_cell cell_for get put delete sort nearby_locked
    difference
crossing_run = refl

move_entity-IsChange_example :
    (olds news : List ℕ) × (get_nearby_entity_ids whole crowd 1 ≡ ok olds)
    × (get_nearby_entity_ids whole crossed 1 ≡ ok news)
    × IsChange olds news crossing
move_entity-IsChange_example =
    move_entity-IsChange whole crowd crowd-IsIndexed 1 (at_point 45 45) crossing crossed
      crossing_run
