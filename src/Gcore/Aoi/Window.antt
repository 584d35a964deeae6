-- ===== src/Gcore/Aoi/Window.antt =====
-- The nine cells of the two loops: a cell and those that touch it, each once.
use ginx.Prelude.{
  ◌≡◌, refl, Bool, false, ◌&&◌, ◌||◌, List, [], ◌∷◌, ◌++◌, arith, ◌==◌, ==_iff, ℤ, int_eq, inc, dec,
}
use ginx.Gcore.Aoi.{AoiCell, cell_eq, around, column, grid, window}

-- One step at most between two coordinates.
abbrev pub near : ℤ → ℤ → Bool
near a b = a == b || a == inc b || b == inc a

-- Equal cells, or cells that touch along a side or at a corner.
abbrev pub adjacent : AoiCell → AoiCell → Bool
adjacent c d = near c.x d.x && near c.y d.y

abbrev pub among : AoiCell → List AoiCell → Bool
among c [] = false
among c (d ∷ ds) = d == c || among c ds

abbrev pub AllApart : List AoiCell → Type 0
AllApart [] = Unit {0}
AllApart (c ∷ cs) = (among c cs ≡ false) × AllApart cs

dec-eq-inc : (a b : ℤ) → (dec b == a) ≡ (b == inc a)
dec-eq-inc a b = ground arith

abbrev int_elem : ℤ → List ℤ → Bool
int_elem a [] = false
int_elem a (x ∷ xs) = x == a || int_elem a xs

abbrev IntsApart : List ℤ → Type 0
IntsApart [] = Unit {0}
IntsApart (x ∷ xs) = (int_elem x xs ≡ false) × IntsApart xs

around-near : (a b : ℤ) → int_elem a (around b) ≡ near a b
around-near a b = ground (
  arith,
  dec-eq-inc a b,
  ==_iff b a,
  ==_iff a b,
  ==_iff (inc b) a,
  ==_iff a (inc b),
  ==_iff b (inc a),
)

around-IntsApart : (b : ℤ) → IntsApart (around b)
around-IntsApart b = ground arith

among-append :
    (d : AoiCell) (cs ds : List AoiCell) → among d (cs ++ ds) ≡ (among d cs || among d ds)
among-append d [] ds = refl
among-append d (c ∷ cs) ds = ground (arith, among-append d cs ds)

among-column :
    (d : AoiCell) (x : ℤ) (ys : List ℤ) → among d (column x ys) ≡ (x == d.x && int_elem d.y ys)
among-column d x [] = ground arith
among-column d x (y ∷ ys) = ground (arith, among-column d x ys)

among-grid :
    (d : AoiCell) (xs ys : List ℤ) → among d (grid xs ys) ≡ (int_elem d.x xs && int_elem d.y ys)
among-grid d [] ys = refl
among-grid d (x ∷ xs) ys =
    ground
      (arith, among-append d (column x ys) (grid xs ys), among-column d x ys, among-grid d xs ys)

pub window-adjacent : (c d : AoiCell) → among d (window c) ≡ adjacent d c
window-adjacent c d =
    ground (arith, among-grid d (around c.x) (around c.y), around-near d.x c.x, around-near d.y c.y)

column-AllApart :
    (x : ℤ) (ys : List ℤ) (cs : List AoiCell)
    → IntsApart ys
    → AllApart cs
    → ((y : ℤ) → among (record { x = x; y = y }) cs ≡ false)
    → AllApart (column x ys ++ cs)
column-AllApart x [] cs s t h = t
column-AllApart x (y ∷ ys) cs s t h = (
  ground (
    arith,
    s.0,
    h y,
    among-append (record { x = x; y = y }) (column x ys) cs,
    among-column (record { x = x; y = y }) x ys,
  ),
  column-AllApart x ys cs s.1 t h,
)

grid-AllApart : (xs ys : List ℤ) → IntsApart xs → IntsApart ys → AllApart (grid xs ys)
grid-AllApart [] ys s t = tt
grid-AllApart (x ∷ xs) ys s t =
    column-AllApart x ys (grid xs ys) t (grid-AllApart xs ys s.1 t)
      λ y. ground (arith, s.0, among-grid (record { x = x; y = y }) xs ys)

pub window-AllApart : (c : AoiCell) → AllApart (window c)
window-AllApart c =
    grid-AllApart (around c.x) (around c.y) (around-IntsApart c.x) (around-IntsApart c.y)
