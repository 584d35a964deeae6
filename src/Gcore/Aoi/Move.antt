-- ===== src/Gcore/Aoi/Move.antt =====
-- What MoveEntity reports: whom the entity sees now and did not before, and the other way round.
use ginx.Prelude.{
  ℕ, ◌≡◌, refl, sym, ap, subst, ◌∙◌, not, ◌&&◌, ◌||◌, some, List, [], ◌∷◌, arith, nat_eq, is_some,
  filter_by, elem, ok,
}
use ginx.GoMap.{get, put, has}
use ginx.GoMap.Laws.{get-put, get_empty}
use ginx.Sort.{
  IsSorted, elem-filter_by, elem-sort, sort-IsSorted, IsDistinct-filter_by, IsSorted-IsDistinct,
}
use ginx.Gcore.Aoi.{
  Float64, AoiManager, AoiChange, Position, IdSet, fill, difference, move_entity, nearby_locked,
  get_nearby_entity_ids,
}
use ginx.Gcore.Aoi.Invariant.{IsIndexed}
use ginx.Gcore.Aoi.Rehoming.{moved, move_entity-Moves, move_entity-IsIndexed}
use ginx.Gcore.Aoi.Nearby.{nearby_locked-visible}

has-fill : (k : ℕ) (ids : IdSet) (ks : List ℕ) → has k (fill ids ks) ≡ (has k ids || elem k ks)
unfolding fill
has-fill k ids [] = ground arith
has-fill k ids (j ∷ ks) = ground (arith, has-fill k (put j tt ids) ks, get-put k j tt ids)

-- The set difference of two lists.
pub elem-difference :
    (k : ℕ) (xs ys : List ℕ) → elem k (difference xs ys) ≡ (elem k xs && not (elem k ys))
unfolding difference
elem-difference k xs ys =
    elem-sort k (filter_by (λ j. not (has j (fill [] ys))) xs)
    ∙ elem-filter_by k (λ j. not (has j (fill [] ys))) xs
    ∙ ap (λ b. elem k xs && not b)
        (has-fill k [] ys ∙ ap (λ b. is_some b || elem k ys) (get_empty k [] refl))

difference-IsSorted : (xs ys : List ℕ) → IsSorted xs → IsSorted (difference xs ys)
unfolding difference
difference-IsSorted xs ys s =
    sort-IsSorted (filter_by (λ j. not (has j (fill [] ys))) xs)
      (IsDistinct-filter_by (λ j. not (has j (fill [] ys))) xs (IsSorted-IsDistinct xs s))

-- The change between two lists of neighbours.
pub record IsChange (olds news : List ℕ) (change : AoiChange) : Type 0 where
  pub entered_sorted : IsSorted change.entered
  pub left_sorted : IsSorted change.left
  pub entered_iff : (k : ℕ) → elem k change.entered ≡ (elem k news && not (elem k olds))
  pub left_iff : (k : ℕ) → elem k change.left ≡ (elem k olds && not (elem k news))

module _ {F : Type 0} (float : Float64 F) (am : AoiManager F) (v : IsIndexed float am) where
  -- A move that succeeds, in a manager whose index agrees, reports as entered and left exactly
  -- the differences between the neighbours that the query gives before it and those that it
  -- gives after it, in order.
  pub move_entity-IsChange :
      (id : ℕ) (p : Position F) (change : AoiChange) (am' : AoiManager F)
      → move_entity float am id p ≡ ok (change, am')
      → (olds news : List ℕ) × (get_nearby_entity_ids float am id ≡ ok olds)
        × (get_nearby_entity_ids float am' id ≡ ok news)
        × IsChange olds news change
  unfolding get_nearby_entity_ids
  move_entity-IsChange id p change am' h =
      let m = move_entity-Moves float am id p change am' h in
      let v' = move_entity-IsIndexed float am id p change am' v h in
      let target = moved float m.entity p m.cell in
      let found' : get id am'.entities ≡ some target =
        ground (arith, m.state, get-put id id target am.entities) in
      let olds = nearby_locked m.entity am.cells in
      let news = nearby_locked target am'.cells in
      let (old_sorted, _) = nearby_locked-visible float am v id m.entity m.found in
      let (new_sorted, _) = nearby_locked-visible float am' v' id target found' in
      let entered : change.entered ≡ difference news olds = ground (arith, m.view, m.state) in
      let left : change.left ≡ difference olds news = ground (arith, m.view, m.state) in
      (
        olds,
        news,
        ground (arith, m.found),
        ground (arith, found'),
        record {
          entered_sorted = subst IsSorted (sym entered) (difference-IsSorted news olds new_sorted);
          left_sorted = subst IsSorted (sym left) (difference-IsSorted olds news old_sorted);
          entered_iff = λ k. ap (elem k) entered ∙ elem-difference k news olds;
          left_iff = λ k. ap (elem k) left ∙ elem-difference k olds news;
        },
      )

-- A client that drops who left and adds who entered has the new list.
pub IsChange-applied :
    (olds news : List ℕ) (change : AoiChange)
    → IsChange olds news change
    → (k : ℕ) → elem k news ≡ ((elem k olds && not (elem k change.left)) || elem k change.entered)
IsChange-applied olds news change c k = ground (arith, c.entered_iff k, c.left_iff k)
