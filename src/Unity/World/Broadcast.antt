-- ===== src/Unity/World/Broadcast.antt =====
-- examples/unity/world.go: messages to the players in sight, and to all. A send is a parameter: it may
-- fail, and it changes the outside `W`.
pub mod Sends
pub mod Own
pub mod Reached
use ginx.Prelude.{
  ℕ, Bool, false, Option, none, some, List, [], ◌∷◌, ◌++◌, if◌then◌else◌, ◌==◌, nat_eq,
}
use ginx.GoMap.{get}
use ginx.Gcore.Aoi.{Float64}
use ginx.Unity.World.{UnityWorld, UnityWorldPlayer, nearby_players, online_players}

abbrev pub note : {E : Type 0} → Option E → List E → List E
note none es = es
note (some e) es = es ++ (e ∷ [])

abbrev pub skips : Option ℕ → ℕ → Bool
skips none conn_id = false
skips (some excluded) conn_id = conn_id == excluded

module _ {C W E : Type 0} (send_buff_msg : C → ℕ → List ℕ → W → Option E × W) where
  -- One send after the other; the errors are kept, and none ends the loop.
  unfoldable pub send_each : ℕ → List ℕ → List (UnityWorldPlayer C) → List E × W → List E × W
  send_each msg_id bytes [] s = s
  send_each msg_id bytes (p ∷ ps) (es, w) =
      let (e, w') = send_buff_msg p.connection msg_id bytes w in
      send_each msg_id bytes ps (note e es, w')

  unfoldable pub broadcast_each :
      ℕ → List ℕ → Option ℕ → List (UnityWorldPlayer C) → List E × W → List E × W
  broadcast_each msg_id bytes exclude [] s = s
  broadcast_each msg_id bytes exclude (p ∷ ps) (es, w) =
      let (e, w') = send_buff_msg p.connection msg_id bytes w in
      broadcast_each msg_id bytes exclude ps
        (if skips exclude p.conn_id then (es, w) else (note e es, w'))

module _ {F C W E : Type 0} (send_buff_msg : C → ℕ → List ℕ → W → Option E × W) where
  unfoldable pub broadcast_visible :
      UnityWorld F C → (float : Float64 F) → ℕ → ℕ → List ℕ → Bool → W → List E × W
  unfolding send_each nearby_players
  broadcast_visible world float conn_id msg_id bytes include_self w =
      let players = nearby_players world float conn_id in
      let self : List (UnityWorldPlayer C) = elim (get conn_id world.players) [
        | none ↦ []
        | some p ↦ p ∷ []
      ] in
      send_each send_buff_msg msg_id bytes (if include_self then players ++ self else players)
        ([], w)

  -- `exclude` is none for `Broadcast`, and the connection left out for `BroadcastExcept`.
  unfoldable pub world_broadcast : UnityWorld F C → ℕ → List ℕ → Option ℕ → W → List E × W
  unfolding broadcast_each online_players
  world_broadcast world msg_id bytes exclude w =
      broadcast_each send_buff_msg msg_id bytes exclude (online_players world) ([], w)
