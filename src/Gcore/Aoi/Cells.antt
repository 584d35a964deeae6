-- ===== src/Gcore/Aoi/Cells.antt =====
-- The cell index: which cell holds which entity.
use ginx.Prelude.{
  ℕ, ◌<◌, ◌≡◌, refl, inl, inr, Bool, true, false, ◌&&◌, some, [], arith, if◌then◌else◌, ◌==◌,
  nat_eq, Option-cases,
}
use ginx.GoMap.{GoMap, get, put, delete, has, size, IsUnique}
use ginx.GoMap.Laws.{get-put, get-delete, size-put, put-IsUnique, delete-IsUnique, get_empty}
use ginx.GoMap.Laws.{has-size}
use ginx.Gcore.Aoi.{AoiCell, cell_eq, cell_beq_iff, IdSet, cell_at, add_to_cell, remove_from_cell}

abbrev pub in_cell : AoiCell → ℕ → GoMap AoiCell IdSet → Bool
in_cell c k cells = has k (cell_at c cells)

-- Each cell stands once, with a set that is not empty.
pub record IsTidy (cells : GoMap AoiCell IdSet) : Type 0 where
  pub unique : IsUnique cells
  pub sets : (c : AoiCell) (ids : IdSet) → get c cells ≡ some ids → IsUnique ids × (0 < size ids)

module _ (cell : AoiCell) (id : ℕ) (cells : GoMap AoiCell IdSet) where
  pub in_cell-add :
      (c : AoiCell) (k : ℕ)
      → in_cell c k (add_to_cell cell id cells)
        ≡ (if cell == c && id == k then true else in_cell c k cells)
  unfolding add_to_cell
  in_cell-add c k = ground (
    arith,
    cell_beq_iff cell c,
    get-put c cell (put id tt (cell_at cell cells)) cells,
    get-put k id tt (cell_at cell cells),
  )

  pub in_cell-remove :
      (c : AoiCell) (k : ℕ)
      → in_cell c k (remove_from_cell cell id cells)
        ≡ (if cell == c && id == k then false else in_cell c k cells)
  unfolding remove_from_cell
  in_cell-remove c k = ground (
    arith,
    cell_beq_iff cell c,
    get-put c cell (delete id (cell_at cell cells)) cells,
    get-delete c cell cells,
    get-delete k id (cell_at cell cells),
    has-size k (delete id (cell_at cell cells)),
    get_empty {V = Unit {0}} k [] refl,
  )

  pub cell_at-IsUnique : IsTidy cells → IsUnique (cell_at cell cells)
  cell_at-IsUnique t = elim (Option-cases (get cell cells)) [
    | inl e ↦ rw (e, IsUnique) tt
    | inr (ids, e) ↦ rw (e, IsUnique) (t.sets cell ids e).0
  ]

  pub add_to_cell-IsTidy : IsTidy cells → IsTidy (add_to_cell cell id cells)
  unfolding add_to_cell
  add_to_cell-IsTidy t = record {
    unique = put-IsUnique cell (put id tt (cell_at cell cells)) cells t.unique;
    sets = λ c ids e. ground (
      arith,
      e,
      get-put c cell (put id tt (cell_at cell cells)) cells,
      t.sets c ids,
      put-IsUnique id tt (cell_at cell cells) (cell_at-IsUnique t),
      has-size id (cell_at cell cells),
      size-put id tt (cell_at cell cells),
    );
  }

  pub remove_from_cell-IsTidy : IsTidy cells → IsTidy (remove_from_cell cell id cells)
  unfolding remove_from_cell
  remove_from_cell-IsTidy t =
      let ids' = delete id (cell_at cell cells) in
      record {
        unique =
            ground
              (arith, put-IsUnique cell ids' cells t.unique, delete-IsUnique cell cells t.unique);
        sets = λ c ids e. ground (
          arith,
          e,
          get-put c cell ids' cells,
          get-delete c cell cells,
          t.sets c ids,
          delete-IsUnique id (cell_at cell cells) (cell_at-IsUnique t),
        );
      }
