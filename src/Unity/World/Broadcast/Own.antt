-- ===== src/Unity/World/Broadcast/Own.antt =====
-- The connections that are sent to are those of the players that are listed.
use ginx.Prelude.{
  ℕ, ◌≡◌, refl, ap, not, Option, some, List, [], ◌∷◌, ◌++◌, arith, nat_eq, string_eq, Bool-cases,
  map, filter_by, int_eq,
}
use ginx.GoMap.{GoMap, get, keys, IsUnique}
use ginx.Unity.World.{UnityWorldPlayer, insert_by_pid, sort_by_pid, values}
use ginx.Unity.World.View.{conn_ids}
use ginx.Unity.World.Broadcast.{skips}
use ginx.Unity.World.Broadcast.Sends.{connections_of, unskipped}

module _ {C : Type 0} (get_conn_id : C → ℕ) where
  -- Each player's connection has the identifier that the player is known by.
  unfoldable pub IsOwn : List (UnityWorldPlayer C) → Type 0
  IsOwn [] = Unit
  IsOwn (p ∷ ps) = (get_conn_id p.connection ≡ p.conn_id) × IsOwn ps

  pub map-connections_of :
      (ps : List (UnityWorldPlayer C))
      → IsOwn ps
      → map get_conn_id (connections_of ps) ≡ conn_ids ps
  unfolding IsOwn
  map-connections_of [] o = refl
  map-connections_of (p ∷ ps) o = ground (arith, o.0, map-connections_of ps o.1)

  insert_by_pid-IsOwn :
      (p : UnityWorldPlayer C) (ps : List (UnityWorldPlayer C))
      → get_conn_id p.connection ≡ p.conn_id
      → IsOwn ps
      → IsOwn (insert_by_pid p ps)
  unfolding IsOwn insert_by_pid
  insert_by_pid-IsOwn p [] h o = (h, tt)
  insert_by_pid-IsOwn p (q ∷ qs) h o = ground (arith, h, insert_by_pid-IsOwn p qs h o.1)

  pub sort_by_pid-IsOwn : (ps : List (UnityWorldPlayer C)) → IsOwn ps → IsOwn (sort_by_pid ps)
  unfolding IsOwn sort_by_pid
  sort_by_pid-IsOwn [] o = tt
  sort_by_pid-IsOwn (p ∷ ps) o =
      insert_by_pid-IsOwn p (sort_by_pid ps) o.0 (sort_by_pid-IsOwn ps o.1)

  pub append-IsOwn : (ps qs : List (UnityWorldPlayer C)) → IsOwn ps → IsOwn qs → IsOwn (ps ++ qs)
  unfolding IsOwn
  append-IsOwn [] qs o o' = o'
  append-IsOwn (p ∷ ps) qs o o' = (o.0, append-IsOwn ps qs o.1 o')

  pub unskipped-IsOwn :
      (exclude : Option ℕ) (ps : List (UnityWorldPlayer C))
      → IsOwn ps
      → IsOwn (unskipped exclude ps)
  unfolding IsOwn unskipped
  unskipped-IsOwn exclude [] o = tt
  unskipped-IsOwn exclude (p ∷ ps) o =
      ground (arith, unskipped-IsOwn exclude ps o.1, Bool-cases (skips exclude p.conn_id))

module _ {C : Type 0} where
  pub conn_ids-append :
      (ps qs : List (UnityWorldPlayer C)) → conn_ids (ps ++ qs) ≡ conn_ids ps ++ conn_ids qs
  conn_ids-append [] qs = refl
  conn_ids-append (p ∷ ps) qs = ap (λ ids. p.conn_id ∷ ids) (conn_ids-append ps qs)

  pub conn_ids-unskipped :
      (exclude : Option ℕ) (ps : List (UnityWorldPlayer C))
      → conn_ids (unskipped exclude ps) ≡ filter_by (λ id. not (skips exclude id)) (conn_ids ps)
  unfolding unskipped
  conn_ids-unskipped exclude [] = refl
  conn_ids-unskipped exclude (p ∷ ps) = ground (arith, conn_ids-unskipped exclude ps)

-- The values of a map, one for each key.
pub conn_ids-values :
    {C : Type 0} (players : GoMap ℕ (UnityWorldPlayer C))
    → IsUnique players
    → ((k : ℕ) (p : UnityWorldPlayer C) → get k players ≡ some p → p.conn_id ≡ k)
    → conn_ids (values players) ≡ keys players
unfolding values get
conn_ids-values [] u own = refl
conn_ids-values {C} ((id, p) ∷ players) u own =
    ground (arith, own id p, conn_ids-values players u.1 own')
  where
    own' : (k : ℕ) (q : UnityWorldPlayer C) → get k players ≡ some q → q.conn_id ≡ k
    own' k q g = ground (arith, g, u.0, own k q)

pub values-IsOwn :
    {C : Type 0} (get_conn_id : C → ℕ) (players : GoMap ℕ (UnityWorldPlayer C))
    → IsUnique players
    → ((k : ℕ) (p : UnityWorldPlayer C)
        → get k players ≡ some p
        → get_conn_id p.connection ≡ p.conn_id)
    → IsOwn get_conn_id (values players)
unfolding values get IsOwn
values-IsOwn get_conn_id [] u own = tt
values-IsOwn {C} get_conn_id ((id, p) ∷ players) u own =
    (own id p (ground arith), values-IsOwn get_conn_id players u.1 own')
  where
    own' :
        (k : ℕ) (q : UnityWorldPlayer C)
        → get k players ≡ some q
        → get_conn_id q.connection ≡ q.conn_id
    own' k q g = ground (arith, g, u.0, own k q)
