-- ===== src/Gcore/Aoi.antt =====
-- gcore/aoi.go: entities on a grid. A coordinate is an IEEE double, of which the code uses a few
-- tests and `int(math.Floor(x / width))`; the type and these operations are a parameter.
pub mod Cells
pub mod Window
pub mod Invariant
pub mod Rehoming
pub mod Nearby
pub mod Move
pub mod History
pub mod Places
mod Examples
use ginx.Prelude.{
  ℕ, ◌+◌, ◌≡◌, ◌↔◌, Bool, true, not, ◌&&◌, ◌||◌, none, some, List, [], ◌∷◌, ◌++◌, arith,
  if◌then◌else◌, Comparable, ◌==◌, nat_eq, ==_iff, filter_by, Result, ok, reject, or_fail, ◌>>=◌,
  ◌>>◌, ℤ, int_eq, inc, dec,
}
use ginx.GoMap.{GoMap, get, put, delete, has, keys, size}
use ginx.Sort.{sort}

-- `lt` and `le` are false wherever a NaN stands. `cell_index x w` is `int(math.Floor(x / w))`.
pub record Float64 (F : Type 0) : Type 0 where
  pub origin : F
  pub is_nan : F → Bool
  pub is_inf : F → Bool
  pub lt : F → F → Bool
  pub le : F → F → Bool
  pub cell_index : F → F → ℤ

pub data AoiError : Type 0 where
  bad_world_size bad_cell_size entity_exists entity_not_found not_finite outside_world : AoiError

pub record Position (F : Type 0) : Type 0 where
  pub x : F
  pub y : F

pub record AoiCell : Type 0 where
  pub x : ℤ
  pub y : ℤ

abbrev pub cell_beq : AoiCell → AoiCell → Bool
cell_beq a b = a.x == b.x && a.y == b.y

pub cell_beq_iff : (a b : AoiCell) → (cell_beq a b ≡ true) ↔ (a ≡ b)
cell_beq_iff a b = ground (arith, ==_iff a.x b.x, ==_iff a.y b.y)

instance abbrev pub cell_eq : Comparable AoiCell
cell_eq = record { equal = cell_beq; equal_iff = cell_beq_iff }

pub record AoiChange : Type 0 where
  pub entered : List ℕ
  pub left : List ℕ

pub record AoiEntity (F : Type 0) : Type 0 where
  pub id : ℕ
  pub position : Position F
  pub cell : AoiCell

-- A set of identifiers is a map to nothing.
abbrev pub IdSet : Type 0
IdSet = GoMap ℕ (Unit {0})

pub record AoiManager (F : Type 0) : Type 0 where
  pub world_width : F
  pub world_height : F
  pub cell_width : F
  pub cell_height : F
  pub entities : GoMap ℕ (AoiEntity F)
  pub cells : GoMap AoiCell IdSet

-- `am.cells[cell]`: the nil map, which is empty, where there is none.
abbrev pub cell_at : AoiCell → GoMap AoiCell IdSet → IdSet
cell_at cell cells = elim (get cell cells) [ none ↦ [] | some ids ↦ ids ]

unfoldable pub add_to_cell : AoiCell → ℕ → GoMap AoiCell IdSet → GoMap AoiCell IdSet
add_to_cell cell id cells = put cell (put id tt (cell_at cell cells)) cells

unfoldable pub remove_from_cell : AoiCell → ℕ → GoMap AoiCell IdSet → GoMap AoiCell IdSet
remove_from_cell cell id cells =
    let ids = delete id (cell_at cell cells) in
    if size ids == 0 then delete cell cells else put cell ids cells

-- The cell index after a move; it is touched only if the cell changes.
unfoldable pub rehome : AoiCell → AoiCell → ℕ → GoMap AoiCell IdSet → GoMap AoiCell IdSet
rehome old new id cells =
    if old == new then cells else add_to_cell new id (remove_from_cell old id cells)

-- The values of `for v := c - 1; v <= c + 1; v++`.
abbrev pub around : ℤ → List ℤ
around c = dec c ∷ c ∷ inc c ∷ []

abbrev pub column : ℤ → List ℤ → List AoiCell
column x [] = []
column x (y ∷ ys) = record { x = x; y = y } ∷ column x ys

abbrev pub grid : List ℤ → List ℤ → List AoiCell
grid [] ys = []
grid (x ∷ xs) ys = column x ys ++ grid xs ys

-- The nine cells that the two loops visit.
abbrev pub window : AoiCell → List AoiCell
window cell = grid (around cell.x) (around cell.y)

-- The other identifiers of each cell in turn.
unfoldable pub scan_cells : ℕ → GoMap AoiCell IdSet → List AoiCell → List ℕ
scan_cells id cells [] = []
scan_cells id cells (c ∷ cs) =
    filter_by (λ k. not (k == id)) (keys (cell_at c cells)) ++ scan_cells id cells cs

unfoldable pub nearby_locked : {F : Type 0} → AoiEntity F → GoMap AoiCell IdSet → List ℕ
unfolding scan_cells
nearby_locked entity cells = sort (scan_cells entity.id cells (window entity.cell))

-- `contains`, filled from the target.
unfoldable pub fill : IdSet → List ℕ → IdSet
fill ids [] = ids
fill ids (k ∷ ks) = fill (put k tt ids) ks

unfoldable pub difference : List ℕ → List ℕ → List ℕ
unfolding fill
difference source target = sort (filter_by (λ k. not (has k (fill [] target))) source)

module _ {F : Type 0} (float : Float64 F) where
  open float use {origin, is_nan, is_inf, lt, le, cell_index}

  unfoldable pub new_aoi_manager : F → F → F → F → Result AoiError (AoiManager F)
  new_aoi_manager world_width world_height cell_width cell_height = do
    reject (le world_width origin || le world_height origin) bad_world_size
    reject (le cell_width origin || le cell_height origin) bad_cell_size
    ok (record {
      world_width = world_width;
      world_height = world_height;
      cell_width = cell_width;
      cell_height = cell_height;
      entities = [];
      cells = [];
    })

  unfoldable pub cell_for : AoiManager F → Position F → Result AoiError AoiCell
  cell_for am p = do
    reject (is_nan p.x || is_nan p.y || is_inf p.x || is_inf p.y) not_finite
    reject (lt p.x origin || lt p.y origin || le am.world_width p.x || le am.world_height p.y)
        outside_world
    ok (record { x = cell_index p.x am.cell_width; y = cell_index p.y am.cell_height })

  unfoldable pub add_entity : AoiManager F → ℕ → Position F → Result AoiError (AoiManager F)
  add_entity am id p = do
    reject (has id am.entities) entity_exists
    cell ← cell_for am p
    ok (record am {
      entities = put id (record { id = id; position = p; cell = cell }) am.entities;
      cells = add_to_cell cell id am.cells;
    })

  unfoldable pub remove_entity : AoiManager F → ℕ → Result AoiError (AoiManager F)
  remove_entity am id = do
    entity ← or_fail (get id am.entities) entity_not_found
    ok (record am {
      cells = remove_from_cell entity.cell id am.cells;
      entities = delete id am.entities;
    })

  unfoldable pub move_entity :
      AoiManager F → ℕ → Position F → Result AoiError (AoiChange × AoiManager F)
  unfolding rehome
  move_entity am id p = do
    entity ← or_fail (get id am.entities) entity_not_found
    new_cell ← cell_for am p
    let old_nearby = nearby_locked entity am.cells
    let cells = rehome entity.cell new_cell id am.cells
    let moved = record entity { position = p; cell = new_cell }
    let new_nearby = nearby_locked moved cells
    ok (
      record {
        entered = difference new_nearby old_nearby;
        left = difference old_nearby new_nearby;
      },
      record am { entities = put id moved am.entities; cells = cells },
    )

  pub get_position : AoiManager F → ℕ → Result AoiError (Position F)
  get_position am id = do entity ← or_fail (get id am.entities) entity_not_found; ok entity.position

  unfoldable pub get_nearby_entity_ids : AoiManager F → ℕ → Result AoiError (List ℕ)
  get_nearby_entity_ids am id = do
    entity ← or_fail (get id am.entities) entity_not_found
    ok (nearby_locked entity am.cells)
