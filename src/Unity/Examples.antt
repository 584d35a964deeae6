-- ===== src/Unity/Examples.antt =====
-- Messages on the wire, and the theorems on them.
use ginx.Prelude.{
  ◌≡◌, ◌≢◌, some, [], ◌∷◌, arith, nat_eq, string_eq, ok, err, ◌>>=◌, pos, negsuc, int_eq,
}
use ginx.Unity.Varint.{out_of_fuel}
use ginx.Unity.Messages.Position.{UnityPosition}
use ginx.Unity.Messages.Players.{UnitySyncPlayers, marshal_sync_players, unmarshal_sync_players}
use ginx.Unity.Messages.Players.RoundTrip.{unmarshal-marshal_sync_players}
use ginx.Unity.Messages.Chat.{
  UnityBroadCast, zero_broadcast, marshal_broadcast, unmarshal_broadcast,
}
use ginx.Unity.Messages.Chat.RoundTrip.{unmarshal-marshal_broadcast, unmarshal_broadcast-ends}

abbrev place : UnityPosition
place = record { x = 1065353216; y = 0; z = 3212836864; v = 0 }

abbrev shout : UnityBroadCast
shout = record {
  pid = negsuc 0;
  tp = pos 1;
  content = 104 ∷ 105 ∷ [];
  p = some place;
  action_data = pos 7;
}

-- A broadcast with a negative identifier, a text, a place and an action.
unmarshal-marshal_broadcast_example :
    (marshal_broadcast shout >>= unmarshal_broadcast (some zero_broadcast)) ≡ ok shout
unmarshal-marshal_broadcast_example =
    unmarshal-marshal_broadcast shout (omega arith) (omega arith) (omega arith)
      (omega arith, omega arith, omega arith, omega arith) (omega arith)

abbrev crowd : UnitySyncPlayers
crowd = record {
  players = record { pid = pos 1001; p = place } ∷ record { pid = pos 1002; p = place } ∷ [];
}

unmarshal-marshal_sync_players_example :
    (marshal_sync_players crowd >>= unmarshal_sync_players (some crowd)) ≡ ok crowd
unmarshal-marshal_sync_players_example = unmarshal-marshal_sync_players crowd crowd (
  (omega arith, (omega arith, omega arith, omega arith, omega arith)),
  ((omega arith, (omega arith, omega arith, omega arith, omega arith)), tt),
)

-- Garbage is refused, but not for want of fuel.
unmarshal_broadcast-ends_example :
    unmarshal_broadcast (some zero_broadcast) (255 ∷ 255 ∷ []) ≢ err out_of_fuel
unmarshal_broadcast-ends_example = unmarshal_broadcast-ends (some zero_broadcast) (255 ∷ 255 ∷ [])
