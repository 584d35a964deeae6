-- ===== src/Gnet/ConnManager/Clearing.antt =====
-- Clearing a connection manager stops each connection that it had, once.
use ginx.Prelude.{
  append-nil, append_assoc, ℕ, ◌≡◌, refl, sym, ap, subst, ◌∙◌, some, List, [], ◌∷◌, ◌++◌, map,
  arith, nat_eq, elem,
}
use ginx.GoMap.{GoMap, get, has, keys, IsUnique}
use ginx.GoMap.Keys.{elem-keys, keys-IsDistinct}
use ginx.Sort.{IsDistinct}
use ginx.Gnet.Config.{Config}
use ginx.Gnet.ConnManager.{ConnManager, clear_conn, snapshot, stop_all}
use ginx.Gnet.ConnManager.Registry.{IsWf}

module _ {C : Type 0} (get_conn_id : C → ℕ) where
  -- A stop that notes who was stopped.
  abbrev pub note : C → List ℕ → List ℕ
  note c w = w ++ get_conn_id c ∷ []

  stop_all-note : (cs : List C) (w : List ℕ) → stop_all note cs w ≡ w ++ map get_conn_id cs
  unfolding stop_all
  stop_all-note [] w = sym (append-nil w)
  stop_all-note (c ∷ cs) w =
      stop_all-note cs (note c w) ∙ append_assoc w (get_conn_id c ∷ []) (map get_conn_id cs)

  map-snapshot :
      (m : GoMap ℕ C)
      → IsUnique m
      → ((k : ℕ) (c : C) → get k m ≡ some c → get_conn_id c ≡ k)
      → map get_conn_id (snapshot m) ≡ keys m
  unfolding get
  map-snapshot [] u h = refl
  map-snapshot ((j, c) ∷ m) u h =
      let rest = map-snapshot m u.1 λ k d g. h k d (ground (arith, g, u.0)) in
      ground (arith, h j c, rest)

  -- Clearing a well-formed manager leaves it without connections and stops each that it had once,
  -- and nothing else.
  pub clear_conn-stops :
      (global : Config) (cm : ConnManager C)
      → IsWf get_conn_id global cm
      → ((clear_conn note cm []).0.connections ≡ [])
        × IsDistinct (clear_conn note cm []).1
        × ((k : ℕ) → elem k (clear_conn note cm []).1 ≡ has k cm.connections)
  unfolding clear_conn
  clear_conn-stops global cm w =
      let e =
        stop_all-note (snapshot cm.connections) [] ∙ map-snapshot cm.connections w.unique w.keyed in
      (
        refl,
        subst IsDistinct (sym e) (keys-IsDistinct cm.connections w.unique),
        λ k. ap (elem k) e ∙ elem-keys k cm.connections,
      )
