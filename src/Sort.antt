-- ===== src/Sort.antt =====
-- sort.Slice on identifiers, as every use of it in the repository: ascending by `<`.
use native.Mathlib.Decide.{ℕ_discrete}
use ginx.Prelude.{
  Bool-cases, inl, inr, ◌++◌, elem-append, Bool, filter_by, ◌&&◌, ◌≤◌, ℕ, ◌<◌, true, false, ◌||◌,
  List, [], ◌∷◌, elem, ltb, nat_beq, ◌≡◌, refl, arith, if◌then◌else◌, ◌∙◌,
}

insert_sorted : ℕ → List ℕ → List ℕ
insert_sorted a [] = a ∷ []
insert_sorted a (x ∷ xs) = if ltb x a then x ∷ insert_sorted a xs else a ∷ x ∷ xs

unfoldable pub sort : List ℕ → List ℕ
unfolding insert_sorted
sort [] = []
sort (x ∷ xs) = insert_sorted x (sort xs)

-- Strictly ascending, above a bound.
abbrev pub Above : ℕ → List ℕ → Type 0
Above b [] = Unit {0}
Above b (x ∷ xs) = (b < x) × Above x xs

abbrev pub IsSorted : List ℕ → Type 0
IsSorted [] = Unit {0}
IsSorted (x ∷ xs) = Above x xs

-- No identifier stands twice.
abbrev pub IsDistinct : List ℕ → Type 0
IsDistinct [] = Unit {0}
IsDistinct (x ∷ xs) = (elem x xs ≡ false) × IsDistinct xs

elem-insert_sorted :
    (a b : ℕ) (xs : List ℕ) → elem b (insert_sorted a xs) ≡ (nat_beq a b || elem b xs)
unfolding insert_sorted
elem-insert_sorted a b [] = refl
elem-insert_sorted a b (x ∷ xs) = ground (arith, elem-insert_sorted a b xs)

pub elem-sort : (b : ℕ) (xs : List ℕ) → elem b (sort xs) ≡ elem b xs
unfolding sort
elem-sort b [] = refl
elem-sort b (x ∷ xs) = ground (arith, elem-insert_sorted x b (sort xs), elem-sort b xs)

insert_sorted-Above :
    (b a : ℕ) (xs : List ℕ) → b < a → Above b xs → elem a xs ≡ false → Above b (insert_sorted a xs)
unfolding insert_sorted
insert_sorted-Above b a [] h s n = omega arith
insert_sorted-Above b a (x ∷ xs) h s n = ground (arith, insert_sorted-Above x a xs)

insert_sorted-IsSorted :
    (a : ℕ) (xs : List ℕ) → IsSorted xs → elem a xs ≡ false → IsSorted (insert_sorted a xs)
unfolding insert_sorted
insert_sorted-IsSorted a [] s n = tt
insert_sorted-IsSorted a (x ∷ xs) s n = ground (arith, insert_sorted-Above x a xs)

-- Of distinct identifiers the result is strictly ascending.
pub sort-IsSorted : (xs : List ℕ) → IsDistinct xs → IsSorted (sort xs)
unfolding sort
sort-IsSorted [] d = tt
sort-IsSorted (x ∷ xs) d =
    insert_sorted-IsSorted x (sort xs) (sort-IsSorted xs d.1) (elem-sort x xs ∙ d.0)

Above-elem : (b x : ℕ) (xs : List ℕ) → Above b xs → elem x xs ≡ true → b < x
Above-elem b x [] s h = absurd (cc)
Above-elem b x (y ∷ xs) s h = ground (arith, Above-elem y x xs s.1)

module _ (x y : ℕ) (xs ys : List ℕ) (s : Above x xs) (t : Above y ys) where
  heads_equal : ((i : ℕ) → elem i (x ∷ xs) ≡ elem i (y ∷ ys)) → x ≡ y
  heads_equal h = ground (arith, h x, h y, Above-elem x y xs s, Above-elem y x ys t)

  tails_agree : ((i : ℕ) → elem i (x ∷ xs) ≡ elem i (y ∷ ys)) → (i : ℕ) → elem i xs ≡ elem i ys
  tails_agree h i = ground (arith, heads_equal h, h i, Above-elem x i xs s, Above-elem y i ys t)

Above-ext :
    (b c : ℕ) (xs ys : List ℕ)
    → Above b xs
    → Above c ys
    → ((i : ℕ) → elem i xs ≡ elem i ys)
    → xs ≡ ys
Above-ext b c [] [] s t h = refl
Above-ext b c [] (y ∷ ys) s t h = ground (arith, h y)
Above-ext b c (x ∷ xs) [] s t h = ground (arith, h x)
Above-ext b c (x ∷ xs) (y ∷ ys) s t h =
    cc (
      heads_equal x y xs ys s.1 t.1 h,
      Above-ext x y xs ys s.1 t.1 (tails_agree x y xs ys s.1 t.1 h),
    )

-- Strictly ascending lists with the same members are one list, so no order of iteration shows in
-- what is sorted.
pub IsSorted-ext :
    (xs ys : List ℕ) → IsSorted xs → IsSorted ys → ((i : ℕ) → elem i xs ≡ elem i ys) → xs ≡ ys
IsSorted-ext [] [] s t h = refl
IsSorted-ext [] (y ∷ ys) s t h = ground (arith, h y)
IsSorted-ext (x ∷ xs) [] s t h = ground (arith, h x)
IsSorted-ext (x ∷ xs) (y ∷ ys) s t h =
    cc (heads_equal x y xs ys s t h, Above-ext x y xs ys s t (tails_agree x y xs ys s t h))

Above-mono : (a b : ℕ) (xs : List ℕ) → a ≤ b → Above b xs → Above a xs
Above-mono a b [] h s = tt
Above-mono a b (x ∷ xs) h s = (omega arith, s.1)

Above-filter_by : (b : ℕ) (p : ℕ → Bool) (xs : List ℕ) → Above b xs → Above b (filter_by p xs)
Above-filter_by b p [] s = tt
Above-filter_by b p (x ∷ xs) s =
    ground (arith, Above-filter_by x p xs s.1, Above-mono b x (filter_by p xs))

-- What a filter keeps of an ascending list is ascending.
pub IsSorted-filter_by : (p : ℕ → Bool) (xs : List ℕ) → IsSorted xs → IsSorted (filter_by p xs)
IsSorted-filter_by p [] s = tt
IsSorted-filter_by p (x ∷ xs) s =
    ground (arith, Above-filter_by x p xs s, Above-IsSorted x (filter_by p xs))
  where
    Above-IsSorted : (b : ℕ) (ys : List ℕ) → Above b ys → IsSorted ys
    Above-IsSorted b [] t = tt
    Above-IsSorted b (y ∷ ys) t = t.1

pub elem-filter_by :
    (k : ℕ) (p : ℕ → Bool) (xs : List ℕ) → elem k (filter_by p xs) ≡ (elem k xs && p k)
elem-filter_by k p [] = refl
elem-filter_by k p (x ∷ xs) = elim (ℕ_discrete x k) [
  | yes e ↦ rw e (ground (arith, elem-filter_by k p xs))
  | no n ↦ ground (arith, elem-filter_by k p xs)
]

pub IsDistinct-append :
    (xs ys : List ℕ)
    → IsDistinct xs
    → IsDistinct ys
    → ((k : ℕ) → elem k xs ≡ true → elem k ys ≡ false)
    → IsDistinct (xs ++ ys)
IsDistinct-append [] ys d e h = e
IsDistinct-append (x ∷ xs) ys d e h = (
  ground (arith, d.0, h x, elem-append x xs ys),
  IsDistinct-append xs ys d.1 e (λ k g. h k (ground (arith, g))),
)

pub IsDistinct-filter_by :
    (p : ℕ → Bool) (xs : List ℕ) → IsDistinct xs → IsDistinct (filter_by p xs)
IsDistinct-filter_by p [] d = tt
IsDistinct-filter_by p (x ∷ xs) d =
    ground (arith, elem-filter_by x p xs, IsDistinct-filter_by p xs d.1)

Above-elem_self : (b : ℕ) (xs : List ℕ) → Above b xs → elem b xs ≡ false
Above-elem_self b xs s = elim (Bool-cases (elem b xs)) [
  | inl e ↦ absurd (omega (arith, Above-elem b b xs s e))
  | inr e ↦ e
]

Above-IsDistinct : (b : ℕ) (xs : List ℕ) → Above b xs → IsDistinct xs
Above-IsDistinct b [] s = tt
Above-IsDistinct b (x ∷ xs) s = (Above-elem_self x xs s.1, Above-IsDistinct x xs s.1)

pub IsSorted-IsDistinct : (xs : List ℕ) → IsSorted xs → IsDistinct xs
IsSorted-IsDistinct [] s = tt
IsSorted-IsDistinct (x ∷ xs) s = (Above-elem_self x xs s, Above-IsDistinct x xs s)
