-- ===== src/Gcore/Aoi/Nearby.antt =====
-- What nearbyLocked returns: the other entities of the nine cells, in ascending order.
use ginx.Prelude.{
  ℕ, ◌≡◌, refl, sym, ap, ◌∙◌, Bool, true, false, not, ◌&&◌, ◌||◌, Option, none, some, List, [], ◌∷◌,
  arith, ◌==◌, nat_eq, ==_iff, filter_by, elem, elem-append, ℤ, int_eq,
}
use ginx.GoMap.{get, keys}
use ginx.GoMap.Keys.{elem-keys, keys-IsDistinct}
use ginx.Sort.{
  IsSorted, elem-filter_by, elem-sort, sort-IsSorted, IsDistinct, IsDistinct-append,
  IsDistinct-filter_by,
}
use ginx.Gcore.Aoi.{
  Float64, AoiCell, AoiEntity, AoiManager, cell_eq, cell_beq_iff, cell_at, window, scan_cells,
  nearby_locked,
}
use ginx.Gcore.Aoi.Cells.{cell_at-IsUnique}
use mathlib.Core.Path.{ap₂}
use ginx.Gcore.Aoi.Window.{adjacent, near, among, AllApart, window-adjacent, window-AllApart}
use ginx.Gcore.Aoi.Invariant.{IsIndexed, lives_in}

near_sym : (a b : ℤ) → near a b ≡ near b a
near_sym a b = ground (arith, ==_iff a b, ==_iff b a)

adjacent_sym : (c d : AoiCell) → adjacent c d ≡ adjacent d c
adjacent_sym c d = ap₂ ◌&&◌ (near_sym c.x d.x) (near_sym c.y d.y)

abbrev pub visible : {F : Type 0} → AoiCell → Option (AoiEntity F) → Bool
visible c none = false
visible c (some e) = adjacent e.cell c

module _ {F : Type 0} (float : Float64 F) (am : AoiManager F) (v : IsIndexed float am) where
  lives_among : Option (AoiEntity F) → List AoiCell → Bool
  lives_among none cs = false
  lives_among (some e) cs = among e.cell cs

  lives_among-cons :
      (o : Option (AoiEntity F)) (c : AoiCell) (cs : List AoiCell)
      → lives_among o (c ∷ cs) ≡ (lives_in o c || lives_among o cs)
  unfolding lives_among
  lives_among-cons none c cs = refl
  lives_among-cons (some e) c cs = ground (arith, cell_beq_iff c e.cell, cell_beq_iff e.cell c)

  -- The entities of one cell, but for one.
  others : ℕ → AoiCell → List ℕ
  others id c = filter_by (λ j. not (j == id)) (keys (cell_at c am.cells))

  elem-others :
      (id k : ℕ) (c : AoiCell)
      → elem k (others id c) ≡ (lives_in (get k am.entities) c && not (k == id))
  unfolding others
  elem-others id k c =
      elem-filter_by k (λ j. not (j == id)) (keys (cell_at c am.cells))
      ∙ ap (λ b. b && not (k == id)) (elem-keys k (cell_at c am.cells) ∙ v.indexed c k)

  others-IsDistinct : (id : ℕ) (c : AoiCell) → IsDistinct (others id c)
  unfolding others
  others-IsDistinct id c =
      IsDistinct-filter_by (λ j. not (j == id)) (keys (cell_at c am.cells))
        (keys-IsDistinct (cell_at c am.cells) (cell_at-IsUnique c id am.cells v.tidy))

  distribute : (a b n : Bool) → ((a && n) || (b && n)) ≡ ((a || b) && n)
  distribute a b n = ground arith

  elem-scan_cells :
      (id k : ℕ) (cs : List AoiCell)
      → elem k (scan_cells id am.cells cs) ≡ (lives_among (get k am.entities) cs && not (k == id))
  unfolding scan_cells others
  elem-scan_cells id k [] = unfold lives_among in ground arith
  elem-scan_cells id k (c ∷ cs) =
      elem-append k (others id c) (scan_cells id am.cells cs)
      ∙ ap₂ ◌||◌ (elem-others id k c) (elem-scan_cells id k cs)
      ∙ distribute (lives_in (get k am.entities) c) (lives_among (get k am.entities) cs)
          (not (k == id))
      ∙ ap (λ b. b && not (k == id)) (sym (lives_among-cons (get k am.entities) c cs))

  lives_apart :
      (o : Option (AoiEntity F)) (c : AoiCell) (cs : List AoiCell)
      → among c cs ≡ false
      → lives_in o c ≡ true
      → lives_among o cs ≡ false
  unfolding lives_among
  lives_apart none c cs a h = refl
  lives_apart (some e) c cs a h = ground (arith, a, h, cell_beq_iff e.cell c)

  scan_cells-IsDistinct :
      (id : ℕ) (cs : List AoiCell) → AllApart cs → IsDistinct (scan_cells id am.cells cs)
  unfolding scan_cells others
  scan_cells-IsDistinct id [] a = tt
  scan_cells-IsDistinct id (c ∷ cs) a =
      IsDistinct-append (others id c) (scan_cells id am.cells cs) (others-IsDistinct id c)
        (scan_cells-IsDistinct id cs a.1)
        λ k h. ground (
          arith,
          h,
          elem-others id k c,
          elem-scan_cells id k cs,
          lives_apart (get k am.entities) c cs a.0,
        )

  lives_among-window :
      (o : Option (AoiEntity F)) (c : AoiCell) → lives_among o (window c) ≡ visible c o
  unfolding lives_among
  lives_among-window none c = refl
  lives_among-window (some e) c = window-adjacent c e.cell

  -- In a manager whose index agrees, the neighbours of an entity are in strictly ascending
  -- order, and are exactly the other entities whose cell is at most one away from its own in
  -- both directions.
  pub nearby_locked-visible :
      (id : ℕ) (entity : AoiEntity F)
      → get id am.entities ≡ some entity
      → IsSorted (nearby_locked entity am.cells)
        × ((k : ℕ)
            → elem k (nearby_locked entity am.cells)
              ≡ (visible entity.cell (get k am.entities) && not (k == id)))
  unfolding nearby_locked
  nearby_locked-visible id entity e =
      let cs = window entity.cell in
      (
        sort-IsSorted (scan_cells entity.id am.cells cs)
            (scan_cells-IsDistinct entity.id cs (window-AllApart entity.cell)),
        λ k. ground (
          arith,
          v.named id entity e,
          elem-sort k (scan_cells entity.id am.cells cs),
          elem-scan_cells entity.id k cs,
          lives_among-window (get k am.entities) entity.cell,
        ),
      )

  -- In a manager whose index agrees, of two entities each is a neighbour of the other or neither
  -- is.
  pub nearby_locked_sym :
      (i j : ℕ) (a b : AoiEntity F)
      → get i am.entities ≡ some a
      → get j am.entities ≡ some b
      → elem j (nearby_locked a am.cells) ≡ elem i (nearby_locked b am.cells)
  nearby_locked_sym i j a b ea eb =
      let (_, of_a) = nearby_locked-visible i a ea in
      let (_, of_b) = nearby_locked-visible j b eb in
      ground (arith, ea, eb, of_a j, of_b i, adjacent_sym a.cell b.cell)
