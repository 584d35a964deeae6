-- ===== src/Gcore/Room/Members.antt =====
-- The snapshot that Members returns.
use ginx.Prelude.{
  ℕ, true, List, [], ◌∷◌, some, nat_eq, ◌≡◌, refl, arith, elem, map, sym, ◌∙◌, Option-cases, inl,
  inr,
}
use ginx.GoMap.{GoMap, get, has, keys, IsUnique}
use ginx.GoMap.Keys.{sort-keys-IsSorted, elem-sort-keys, sort-keys_ext}
use ginx.Sort.{sort, IsSorted}
use ginx.Gcore.Room.{Room, collect, members_of}
use ginx.Gcore.Room.Membership.{IsWf}

module _ {C : Type 0} where
  map-collect :
      (get_conn_id : C → ℕ) (m : GoMap ℕ C) (ids : List ℕ)
      → ((k : ℕ) (c : C) → get k m ≡ some c → get_conn_id c ≡ k)
      → ((k : ℕ) → elem k ids ≡ true → has k m ≡ true)
      → map get_conn_id (collect m ids) ≡ ids
  unfolding collect
  map-collect get_conn_id m [] keyed found = refl
  map-collect get_conn_id m (id ∷ ids) keyed found = elim (Option-cases (get id m)) [
    | inl e ↦ absurd (ground (arith, found id, e))
    | inr (c, e) ↦ ground (
      arith,
      e,
      keyed id c e,
      map-collect get_conn_id m ids keyed (λ k h. found k (ground (arith, h))),
    )
  ]

  collect_ext :
      (m n : GoMap ℕ C) (ids : List ℕ)
      → ((k : ℕ) → get k m ≡ get k n)
      → collect m ids ≡ collect n ids
  unfolding collect
  collect_ext m n [] h = refl
  collect_ext m n (id ∷ ids) h = ground (arith, h id, collect_ext m n ids h)

  -- The snapshot of a well-formed room is in strictly ascending order of the identifiers, and an
  -- identifier is in it exactly if the room has that member.
  pub members_of-IsSorted :
      (get_conn_id : C → ℕ) (r : Room C)
      → IsWf get_conn_id r
      → IsSorted (map get_conn_id (members_of r))
        × ((k : ℕ) → elem k (map get_conn_id (members_of r)) ≡ has k r.members)
  unfolding members_of
  members_of-IsSorted get_conn_id r w =
      let e =
        map-collect get_conn_id r.members (sort (keys r.members)) w.keyed
          (λ k h. sym (elem-sort-keys k r.members) ∙ h) in
      rw e (sort-keys-IsSorted r.members w.unique, λ k. elem-sort-keys k r.members)

  -- Two rooms whose maps have each key once and agree on every lookup give the same snapshot:
  -- the order of the map does not show.
  pub members_of_ext :
      (r s : Room C)
      → IsUnique r.members
      → IsUnique s.members
      → ((k : ℕ) → get k r.members ≡ get k s.members)
      → members_of r ≡ members_of s
  unfolding members_of
  members_of_ext r s u v h =
      rw (sort-keys_ext r.members s.members u v h)
        (collect_ext r.members s.members (sort (keys s.members)) h)
