-- ===== src/Unity/World/Broadcast/Reached.antt =====
-- Whom a broadcast reaches.
use ginx.Prelude.{
  ℕ, ◌≡◌, refl, sym, ap, subst, ◌∙◌, inl, inr, Bool, true, false, not, ◌&&◌, Option, some, List, [],
  ◌∷◌, ◌++◌, arith, if◌then◌else◌, ◌==◌, nat_eq, string_eq, Option-cases, elem, elem-append, map,
  ok, err, int_eq,
}
use ginx.GoMap.{get, has}
use ginx.GoMap.Keys.{elem-keys, keys-IsDistinct}
use ginx.Sort.{IsDistinct, IsDistinct-append, elem-filter_by, IsDistinct-filter_by}
use ginx.Gcore.Aoi.{Float64, get_nearby_entity_ids}
use ginx.Unity.World.{
  UnityWorldPlayer, UnityWorld, nearby_players, players_from_ids, found_players, values,
  online_players, aoi_position,
}
use ginx.Unity.World.Online.{IsOnline, place_of}
use ginx.Unity.World.View.{
  conn_ids, sees_place, nearby_players-sees, elem-sort_by_pid, sort_by_pid-IsDistinct,
}
use ginx.Unity.World.Broadcast.{send_each, broadcast_visible, skips, world_broadcast}
use ginx.Unity.World.Broadcast.Sends.{
  deliver, connections_of, unskipped, send_each-deliver, broadcast_each-unskipped,
}
use ginx.Unity.World.Broadcast.Own.{
  IsOwn, map-connections_of, sort_by_pid-IsOwn, append-IsOwn, unskipped-IsOwn, conn_ids-append,
  conn_ids-unskipped, conn_ids-values, values-IsOwn,
}

module _ {F C : Type 0} (float : Float64 F) (float64_of : ℕ → F) (get_conn_id : C → ℕ)
    (world : UnityWorld F C) (v : IsOnline float float64_of get_conn_id world) where
  own_player :
      (k : ℕ) (p : UnityWorldPlayer C)
      → get k world.players ≡ some p
      → get_conn_id p.connection ≡ p.conn_id
  own_player k p e = v.own_connection k p e ∙ sym (v.own_id k p e)

  found_players-IsOwn : (ids : List ℕ) → IsOwn get_conn_id (found_players world.players ids)
  unfolding found_players IsOwn
  found_players-IsOwn [] = tt
  found_players-IsOwn (id ∷ ids) = elim (Option-cases (get id world.players)) [
    | inl n ↦ ground (arith, n, found_players-IsOwn ids)
    | inr (p, e) ↦ ground (arith, e, own_player id p e, found_players-IsOwn ids)
  ]

  nearby_players-IsOwn : (id : ℕ) → IsOwn get_conn_id (nearby_players world float id)
  unfolding nearby_players players_from_ids IsOwn
  nearby_players-IsOwn id =
      elim (get_nearby_entity_ids float world.aoi id)
        as (λ r. IsOwn get_conn_id (elim r [ ok ids ↦ players_from_ids world ids | err x ↦ [] ])) [
          | ok ids ↦
              sort_by_pid-IsOwn get_conn_id (found_players world.players ids)
                (found_players-IsOwn ids)
          | err x ↦ tt
        ]

  module _ {W E : Type 0} (send_buff_msg : C → ℕ → List ℕ → W → Option E × W) where
    reached :
        (msg_id : ℕ) (bytes : List ℕ) (ps : List (UnityWorldPlayer C)) (w : W)
        → IsOwn get_conn_id ps
        → IsDistinct (conn_ids ps)
        → (cs : List C) × (send_each send_buff_msg msg_id bytes ps ([], w)
            ≡ deliver send_buff_msg msg_id bytes cs w)
          × IsDistinct (map get_conn_id cs)
          × ((k : ℕ) → elem k (map get_conn_id cs) ≡ elem k (conn_ids ps))
    reached msg_id bytes ps w o d = (
      connections_of ps,
      send_each-deliver send_buff_msg msg_id bytes ps [] w,
      subst IsDistinct (sym (map-connections_of get_conn_id ps o)) d,
      λ k. ap (elem k) (map-connections_of get_conn_id ps o),
    )

    online_players-IsDistinct : IsDistinct (conn_ids (online_players world))
    unfolding online_players
    online_players-IsDistinct = sort_by_pid-IsDistinct (values world.players) (
        rw (conn_ids-values world.players v.unique v.own_id)
          (keys-IsDistinct world.players v.unique))

    elem-online_players : (k : ℕ) → elem k (conn_ids (online_players world)) ≡ has k world.players
    unfolding online_players
    elem-online_players k =
        rw
          (
            elem-sort_by_pid k (values world.players),
            conn_ids-values world.players v.unique v.own_id,
          )
          (elem-keys k world.players)

    -- In a world whose maps agree, a broadcast is one send to each of a list of connections and returns
    -- the errors of these sends; the list has each connection once, and exactly those of the players
    -- that are online, less the one that is left out.
    pub world_broadcast-reaches :
        (msg_id : ℕ) (bytes : List ℕ) (exclude : Option ℕ) (w : W)
        → (cs : List C) × (world_broadcast send_buff_msg world msg_id bytes exclude w
            ≡ deliver send_buff_msg msg_id bytes cs w)
          × IsDistinct (map get_conn_id cs)
          × ((k : ℕ) → elem k (map get_conn_id cs) ≡ (has k world.players && not (skips exclude k)))
    unfolding world_broadcast online_players
    world_broadcast-reaches msg_id bytes exclude w =
        let players = online_players world in
        let kept = unskipped exclude players in
        let ids = conn_ids-unskipped exclude players in
        let own = unskipped-IsOwn get_conn_id exclude players (
          sort_by_pid-IsOwn get_conn_id (values world.players)
            (values-IsOwn get_conn_id world.players v.unique own_player)) in
        let distinct = subst IsDistinct (sym ids) (
          IsDistinct-filter_by (λ id. not (skips exclude id)) (conn_ids players)
            online_players-IsDistinct) in
        let (cs, sent, once, who) = reached msg_id bytes kept w own distinct in
        (
          cs,
          broadcast_each-unskipped send_buff_msg msg_id bytes exclude players [] w ∙ sent,
          once,
          λ k.
              who k
              ∙ rw
                  (
                    ids,
                    elem-filter_by k (λ id. not (skips exclude id)) (conn_ids players),
                    elem-online_players k,
                  )
                  refl,
        )

    -- In a world whose maps agree, BroadcastVisible for a player that is online is one send to each of a
    -- list of connections and returns the errors of these sends; the list has each connection once,
    -- and exactly those of the other players whose places are seen from the player's own, with the
    -- player's own if it is to be included.
    pub broadcast_visible-reaches :
        (id : ℕ) (me : UnityWorldPlayer C)
        → get id world.players ≡ some me
        → (msg_id : ℕ) (bytes : List ℕ) (include_self : Bool) (w : W)
        → (cs : List C) × (broadcast_visible send_buff_msg world float id msg_id bytes include_self
              w
            ≡ deliver send_buff_msg msg_id bytes cs w)
          × IsDistinct (map get_conn_id cs)
          × ((k : ℕ)
              → elem k (map get_conn_id cs) ≡ (
                  if k == id
                  then include_self
                  else sees_place float world.aoi
                      (aoi_position float64_of me.position)
                      (place_of float64_of (get k world.players))))
    unfolding broadcast_visible IsOwn
    broadcast_visible-reaches id me e msg_id bytes true w =
        let players = nearby_players world float id in
        let (sorted, distinct, sees) =
          nearby_players-sees float float64_of get_conn_id world v id me e in
        let ids = conn_ids-append players (me ∷ []) in
        let own =
          append-IsOwn get_conn_id players (me ∷ []) (nearby_players-IsOwn id)
            (own_player id me e, tt) in
        let once = subst IsDistinct (sym ids) (
          IsDistinct-append (conn_ids players) (me.conn_id ∷ []) distinct (refl, tt)
            (λ k h. ground (arith, h, sees k, v.own_id id me e))) in
        let (cs, sent, once', who) = reached msg_id bytes (players ++ (me ∷ [])) w own once in
        (
          cs,
          rw (e, broadcast_visible) sent,
          once',
          λ k. ground (
            arith,
            who k,
            sees k,
            v.own_id id me e,
            ids,
            elem-append k (conn_ids players) (me.conn_id ∷ []),
          ),
        )
    broadcast_visible-reaches id me e msg_id bytes false w =
        let (sorted, distinct, sees) =
          nearby_players-sees float float64_of get_conn_id world v id me e in
        let (cs, sent, once, who) =
          reached msg_id bytes (nearby_players world float id) w (nearby_players-IsOwn id)
            distinct in
        (cs, sent, once, λ k. ground (arith, who k, sees k))
