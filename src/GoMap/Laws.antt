-- ===== src/GoMap/Laws.antt =====
-- What the other modules use of a map: each operation is seen through lookups and `size`.
use ginx.Prelude.{
  ◌<◌, true, suc, [], ◌∷◌, none, some, Comparable, ◌==◌, ◌≡◌, refl, arith, if◌then◌else◌,
}
use ginx.GoMap.{GoMap, get, put, delete, has, IsUnique, size}

module _ {ℓ κ} {K : Type ℓ} ⦃e : Comparable K⦄ {V : Type κ} where
  pub get-put :
      (j k : K) (v : V) (m : GoMap K V) → get j (put k v m) ≡ (if k == j then some v else get j m)
  unfolding get put
  get-put j k v [] = refl
  get-put j k v ((i, w) ∷ m) =
      ground (arith, e.equal_iff k j, e.equal_iff i k, e.equal_iff i j, get-put j k v m)

  pub get-delete :
      (j k : K) (m : GoMap K V) → get j (delete k m) ≡ (if k == j then none else get j m)
  unfolding get delete
  get-delete j k [] = ground arith
  get-delete j k ((i, w) ∷ m) =
      ground (arith, e.equal_iff k j, e.equal_iff i k, e.equal_iff i j, get-delete j k m)

  pub size-put :
      (k : K) (v : V) (m : GoMap K V)
      → size (put k v m) ≡ (if has k m then size m else suc (size m))
  unfolding get put
  size-put k v [] = refl
  size-put k v ((i, w) ∷ m) = ground (arith, size-put k v m)

  pub put-IsUnique : (k : K) (v : V) (m : GoMap K V) → IsUnique m → IsUnique (put k v m)
  unfolding get put
  put-IsUnique k v [] u = (refl, tt)
  put-IsUnique k v ((i, w) ∷ m) u =
      ground (arith, e.equal_iff k i, e.equal_iff i k, get-put i k v m, put-IsUnique k v m u.1)

  pub delete-IsUnique : (k : K) (m : GoMap K V) → IsUnique m → IsUnique (delete k m)
  unfolding get delete
  delete-IsUnique k [] u = tt
  delete-IsUnique k ((i, w) ∷ m) u = ground (arith, get-delete i k m, delete-IsUnique k m u.1)

  delete_missing : (k : K) (m : GoMap K V) → get k m ≡ none → delete k m ≡ m
  unfolding get delete
  delete_missing k [] h = refl
  delete_missing k ((i, w) ∷ m) h = ground (arith, delete_missing k m)

  pub size-delete :
      (k : K) (m : GoMap K V)
      → IsUnique m
      → size m ≡ (if has k m then suc (size (delete k m)) else size (delete k m))
  unfolding get delete
  size-delete k [] u = refl
  size-delete k ((i, w) ∷ m) u =
      ground (arith, e.equal_iff i k, size-delete k m u.1, delete_missing k m)

  -- No key is in the empty map.
  pub get_empty : (k : K) (m : GoMap K V) → m ≡ [] → get k m ≡ none
  unfolding get
  get_empty k m h = rw h refl

  pub size_zero : (m : GoMap K V) → size m ≡ 0 → m ≡ []
  size_zero [] h = refl
  size_zero (x ∷ m) h = absurd (omega arith)

  -- A key that is there makes the map non-empty.
  pub has-size : (k : K) (m : GoMap K V) → has k m ≡ true → 0 < size m
  has-size k [] h = absurd (unfold get in cc)
  has-size k (x ∷ m) h = omega arith
