-- ===== src/Unity/World/View.antt =====
-- Who a player sees: the world's players, by the grid's answer and in the order of their PIDs.
use ginx.Prelude.{
  ℕ, ◌≡◌, refl, subst, ◌∙◌, inl, inr, Bool, true, false, not, ◌&&◌, ◌||◌, Option, none, some, List,
  [], ◌∷◌, arith, nat_beq, ◌==◌, nat_eq, string_eq, Bool-cases, Option-cases, elem, ok, err, ℤ, pos,
  negsuc, int_eq,
}
use ginx.GoMap.{get, has}
use ginx.Sort.{IsDistinct, IsSorted-IsDistinct}
use ginx.Gcore.Aoi.{Float64, AoiManager, AoiEntity, Position, AoiCell, cell_for, nearby_locked}
use ginx.Gcore.Aoi.Window.{adjacent}
use ginx.Gcore.Aoi.Invariant.{IsIndexed}
use ginx.Gcore.Aoi.Nearby.{visible, nearby_locked-visible}
use ginx.Gcore.Aoi.Places.{entity_place, get_nearby-found}
use ginx.Unity.World.{
  UnityWorldPlayer, UnityWorld, nearby_players, players_from_ids, insert_by_pid, sort_by_pid,
  found_players, int_ltb, aoi_position,
}
use ginx.Unity.World.Online.{IsOnline, place_of}

int_ltb_asym : (a b : ℤ) → int_ltb a b ≡ true → int_ltb b a ≡ false
int_ltb_asym (pos a) (pos b) h = ground arith
int_ltb_asym (pos a) (negsuc b) h = ground arith
int_ltb_asym (negsuc a) (pos b) h = ground arith
int_ltb_asym (negsuc a) (negsuc b) h = ground arith

-- The PIDs do not descend.
pub AtLeast : {C : Type 0} → ℤ → List (UnityWorldPlayer C) → Type 0
AtLeast pid [] = Unit
AtLeast pid (p ∷ ps) = (int_ltb p.pid pid ≡ false) × AtLeast p.pid ps

pub IsAscending : {C : Type 0} → List (UnityWorldPlayer C) → Type 0
unfolding AtLeast
IsAscending [] = Unit
IsAscending (p ∷ ps) = AtLeast p.pid ps

module _ {C : Type 0} where
  abbrev pub conn_ids : List (UnityWorldPlayer C) → List ℕ
  conn_ids [] = []
  conn_ids (p ∷ ps) = p.conn_id ∷ conn_ids ps

  elem-insert_by_pid :
      (k : ℕ) (p : UnityWorldPlayer C) (ps : List (UnityWorldPlayer C))
      → elem k (conn_ids (insert_by_pid p ps)) ≡ (nat_beq p.conn_id k || elem k (conn_ids ps))
  unfolding insert_by_pid
  elem-insert_by_pid k p [] = refl
  elem-insert_by_pid k p (q ∷ qs) = ground (arith, elem-insert_by_pid k p qs)

  pub elem-sort_by_pid :
      (k : ℕ) (ps : List (UnityWorldPlayer C))
      → elem k (conn_ids (sort_by_pid ps)) ≡ elem k (conn_ids ps)
  unfolding sort_by_pid
  elem-sort_by_pid k [] = refl
  elem-sort_by_pid k (p ∷ ps) =
      ground (arith, elem-insert_by_pid k p (sort_by_pid ps), elem-sort_by_pid k ps)

  insert_by_pid-IsDistinct :
      (p : UnityWorldPlayer C) (ps : List (UnityWorldPlayer C))
      → elem p.conn_id (conn_ids ps) ≡ false
      → IsDistinct (conn_ids ps)
      → IsDistinct (conn_ids (insert_by_pid p ps))
  unfolding insert_by_pid
  insert_by_pid-IsDistinct p [] n d = ground (arith, n)
  insert_by_pid-IsDistinct p (q ∷ qs) n d =
      ground (arith, elem-insert_by_pid q.conn_id p qs, insert_by_pid-IsDistinct p qs)

  pub sort_by_pid-IsDistinct :
      (ps : List (UnityWorldPlayer C))
      → IsDistinct (conn_ids ps)
      → IsDistinct (conn_ids (sort_by_pid ps))
  unfolding sort_by_pid
  sort_by_pid-IsDistinct [] d = tt
  sort_by_pid-IsDistinct (p ∷ ps) d =
      insert_by_pid-IsDistinct p (sort_by_pid ps) (ground (arith, elem-sort_by_pid p.conn_id ps))
        (sort_by_pid-IsDistinct ps d.1)

  insert_by_pid-AtLeast :
      (pid : ℤ) (p : UnityWorldPlayer C) (ps : List (UnityWorldPlayer C))
      → int_ltb p.pid pid ≡ false
      → AtLeast pid ps
      → AtLeast pid (insert_by_pid p ps)
  unfolding insert_by_pid AtLeast
  insert_by_pid-AtLeast pid p [] h s = (h, tt)
  insert_by_pid-AtLeast pid p (q ∷ qs) h s = ground (
    arith,
    insert_by_pid-AtLeast q.pid p qs,
    int_ltb_asym q.pid p.pid,
    Bool-cases (int_ltb q.pid p.pid),
  )

  insert_by_pid-IsAscending :
      (p : UnityWorldPlayer C) (ps : List (UnityWorldPlayer C))
      → IsAscending ps
      → IsAscending (insert_by_pid p ps)
  unfolding insert_by_pid AtLeast IsAscending
  insert_by_pid-IsAscending p [] s = tt
  insert_by_pid-IsAscending p (q ∷ qs) s =
      ground (arith, insert_by_pid-AtLeast q.pid p qs, int_ltb_asym q.pid p.pid)

  pub sort_by_pid-IsAscending : (ps : List (UnityWorldPlayer C)) → IsAscending (sort_by_pid ps)
  unfolding sort_by_pid IsAscending
  sort_by_pid-IsAscending [] = tt
  sort_by_pid-IsAscending (p ∷ ps) =
      insert_by_pid-IsAscending p (sort_by_pid ps) (sort_by_pid-IsAscending ps)

-- Whether one place is seen from another: both lie in the world, and their cells are at most one apart.
pub sees : {F : Type 0} → Float64 F → AoiManager F → Position F → Position F → Bool
sees float am p q = elim (cell_for float am p) [
  | err x ↦ false
  | ok c ↦ elim (cell_for float am q) [ err x ↦ false | ok d ↦ adjacent d c ]
]

abbrev pub sees_place :
    {F : Type 0} → Float64 F → AoiManager F → Position F → Option (Position F) → Bool
sees_place float am p none = false
sees_place float am p (some q) = sees float am p q

module _ {F : Type 0} (float : Float64 F) (am : AoiManager F) (v : IsIndexed float am) where
  visible-sees :
      (k : ℕ) (c : AoiCell) (p : Position F)
      → cell_for float am p ≡ ok c
      → visible c (get k am.entities) ≡ sees_place float am p (entity_place (get k am.entities))
  unfolding sees
  visible-sees k c p h = elim (Option-cases (get k am.entities)) [
    | inl n ↦ ground (arith, n)
    | inr (e, g) ↦ ground (arith, h, g, v.placed k e g)
  ]

module _ {F C : Type 0} (float : Float64 F) (float64_of : ℕ → F) (get_conn_id : C → ℕ)
    (w : UnityWorld F C) (v : IsOnline float float64_of get_conn_id w) where
  elem-found_players :
      (k : ℕ) (ids : List ℕ)
      → elem k (conn_ids (found_players w.players ids)) ≡ (elem k ids && has k w.players)
  unfolding found_players
  elem-found_players k [] = refl
  elem-found_players k (id ∷ ids) = elim (Option-cases (get id w.players)) [
    | inl n ↦ ground (arith, n, elem-found_players k ids)
    | inr (p, e) ↦ ground (arith, e, v.own_id id p e, elem-found_players k ids)
  ]

  found_players-IsDistinct :
      (ids : List ℕ) → IsDistinct ids → IsDistinct (conn_ids (found_players w.players ids))
  unfolding found_players
  found_players-IsDistinct [] d = tt
  found_players-IsDistinct (id ∷ ids) d = elim (Option-cases (get id w.players)) [
    | inl n ↦ ground (arith, n, found_players-IsDistinct ids d.1)
    | inr (p, e) ↦
        ground
          (arith, e, v.own_id id p e, found_players-IsDistinct ids d.1, elem-found_players id ids)
  ]

  pub elem-players_from_ids :
      (k : ℕ) (ids : List ℕ)
      → elem k (conn_ids (players_from_ids w ids)) ≡ (elem k ids && has k w.players)
  unfolding players_from_ids
  elem-players_from_ids k ids =
      elem-sort_by_pid k (found_players w.players ids) ∙ elem-found_players k ids

  nearby_players-found :
      (id : ℕ) (entity : AoiEntity F)
      → get id w.aoi.entities ≡ some entity
      → nearby_players w float id ≡ players_from_ids w (nearby_locked entity w.aoi.cells)
  unfolding nearby_players
  nearby_players-found id entity e =
      rw (get_nearby-found float w.aoi id entity e, nearby_players) refl

  -- A player that is online sees exactly the other players that are online and whose places are seen
  -- from its own, each once and in the order of their PIDs.
  pub nearby_players-sees :
      (id : ℕ) (me : UnityWorldPlayer C)
      → get id w.players ≡ some me
      → IsAscending (nearby_players w float id)
        × IsDistinct (conn_ids (nearby_players w float id))
        × ((k : ℕ)
            → elem k (conn_ids (nearby_players w float id)) ≡ (
                sees_place float w.aoi
                  (aoi_position float64_of me.position)
                  (place_of float64_of (get k w.players))
                && not (k == id)))
  unfolding players_from_ids
  nearby_players-sees id me e = elim (Option-cases (get id w.aoi.entities)) [
    | inl n ↦ absurd (ground (arith, n, e, v.located id))
    | inr (entity, f) ↦
        let at_place : entity.position ≡ aoi_position float64_of me.position =
          ground (arith, f, e, v.located id) in
        let lands =
          subst (λ q. cell_for float w.aoi q ≡ ok entity.cell) at_place
            (v.indexed.placed id entity f) in
        let (sorted, seen) = nearby_locked-visible float w.aoi v.indexed id entity f in
        let ids = nearby_locked entity w.aoi.cells in
        rw (nearby_players-found id entity f) (
          sort_by_pid-IsAscending (found_players w.players ids),
          sort_by_pid-IsDistinct (found_players w.players ids)
              (found_players-IsDistinct ids (IsSorted-IsDistinct ids sorted)),
          λ k. ground (
            arith,
            elem-players_from_ids k ids,
            seen k,
            v.located k,
            visible-sees float w.aoi v.indexed k entity.cell (aoi_position float64_of me.position)
                lands,
          ),
        )
  ]
