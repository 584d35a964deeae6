-- ===== src/GoMap.antt =====
-- Go's built-in map, as an association list with one entry for a key that is written through
-- `put` alone. A `range` over a map has no fixed order: what iterates states its result by
-- lookups, or sorts.
pub mod Laws
pub mod Keys
use ginx.Prelude.{
  ℕ, suc, Bool, true, false, List, [], ◌∷◌, Option, none, some, Comparable, ◌==◌, ◌≡◌,
  if◌then◌else◌, is_some,
}

abbrev pub GoMap {ℓ κ} : Type ℓ → Type κ → Type (ℓ ⊔ κ)
GoMap K V = List (K × V)

module _ {ℓ κ} {K : Type ℓ} ⦃e : Comparable K⦄ {V : Type κ} where
  -- `m[k]`, with its second result.
  unfoldable pub get : K → GoMap K V → Option V
  get k [] = none
  get k ((j, v) ∷ m) = if j == k then some v else get k m

  -- `m[k] = v`
  unfoldable pub put : K → V → GoMap K V → GoMap K V
  put k v [] = (k, v) ∷ []
  put k v ((j, w) ∷ m) = if j == k then (k, v) ∷ m else (j, w) ∷ put k v m

  -- `delete(m, k)`
  unfoldable pub delete : K → GoMap K V → GoMap K V
  delete k [] = []
  delete k ((j, w) ∷ m) = if j == k then delete k m else (j, w) ∷ delete k m

  abbrev pub has : K → GoMap K V → Bool
  has k m = is_some (get k m)

  -- Each key stands once.
  abbrev pub IsUnique : GoMap K V → Type κ
  IsUnique [] = Unit {κ}
  IsUnique ((k, v) ∷ m) = (get k m ≡ none) × IsUnique m

abbrev pub keys {ℓ κ} : {K : Type ℓ} {V : Type κ} → GoMap K V → List K
keys [] = []
keys ((k, v) ∷ m) = k ∷ keys m

-- `len(m)`
abbrev pub size {ℓ κ} : {K : Type ℓ} {V : Type κ} → GoMap K V → ℕ
size [] = 0
size ((k, v) ∷ m) = suc (size m)
