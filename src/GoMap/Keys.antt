-- ===== src/GoMap/Keys.antt =====
-- The keys of a map over identifiers, and their sorted list.
use ginx.Prelude.{ℕ, [], ◌∷◌, ◌≡◌, ◌∙◌, sym, ap, refl, arith, nat_eq, elem, is_some}
use ginx.GoMap.{GoMap, get, has, IsUnique, keys}
use ginx.Sort.{sort, elem-sort, sort-IsSorted, IsSorted, IsSorted-ext, IsDistinct}

module _ {κ} {V : Type κ} where
  pub elem-keys : (k : ℕ) (m : GoMap ℕ V) → elem k (keys m) ≡ has k m
  unfolding get
  elem-keys k [] = refl
  elem-keys k ((j, v) ∷ m) = ground (arith, elem-keys k m)

  pub keys-IsDistinct : (m : GoMap ℕ V) → IsUnique m → IsDistinct (keys m)
  keys-IsDistinct [] u = tt
  keys-IsDistinct ((k, v) ∷ m) u = (elem-keys k m ∙ ap is_some u.0, keys-IsDistinct m u.1)

  pub sort-keys-IsSorted : (m : GoMap ℕ V) → IsUnique m → IsSorted (sort (keys m))
  sort-keys-IsSorted m u = sort-IsSorted (keys m) (keys-IsDistinct m u)

  pub elem-sort-keys : (k : ℕ) (m : GoMap ℕ V) → elem k (sort (keys m)) ≡ has k m
  elem-sort-keys k m = elem-sort k (keys m) ∙ elem-keys k m

  -- Maps with the same lookups have the same sorted keys, whatever order they are walked in.
  pub sort-keys_ext :
      (m n : GoMap ℕ V)
      → IsUnique m
      → IsUnique n
      → ((k : ℕ) → get k m ≡ get k n)
      → sort (keys m) ≡ sort (keys n)
  sort-keys_ext m n u v h =
      IsSorted-ext (sort (keys m)) (sort (keys n)) (sort-keys-IsSorted m u) (sort-keys-IsSorted n v)
        λ k. elem-sort-keys k m ∙ ap is_some (h k) ∙ sym (elem-sort-keys k n)
