-- ===== src/Unity/Messages/Players/RoundTrip.antt =====
-- What is written for a player, for the players of a view and for a move is read back.
use ginx.Prelude.{
  ℕ, ◌<◌, ◌≡◌, refl, subst, some, List, [], ◌∷◌, ◌++◌, arith, nat_eq, string_eq, length, All,
  append-nil, append_assoc, ok, ◌>>=◌, int_eq,
}
use ginx.Unity.Fields.{append_varint, append_bytes}
use ginx.Unity.Fields.Laws.{Decodes, Decodes-nil, Decodes-append_bytes, decode_fields-Decodes}
use ginx.Unity.Fields.Length.{length-append_varint_le, length-append_bytes_le}
use ginx.Unity.Messages.{IsInt32, extend_int32, Decodes-append_int32}
use ginx.Unity.Messages.Position.RoundTrip.{IsPosition, marshal_position-ok}
use ginx.Unity.Messages.Players.{
  UnitySyncPid, UnityPlayer, zero_player, UnitySyncPlayers, UnityMovePackage, marshal_sync_pid,
  sync_pid_field, unmarshal_sync_pid, marshal_player, player_field, unmarshal_player,
  append_players, marshal_sync_players, sync_players_field, unmarshal_sync_players,
  marshal_move_package, move_package_field, unmarshal_move_package,
}

abbrev pub IsPlayer : UnityPlayer → Type 0
IsPlayer m = IsInt32 m.pid × IsPosition m.p

pub unmarshal-marshal_sync_pid :
    (m before : UnitySyncPid)
    → IsInt32 m.pid
    → (marshal_sync_pid m >>= unmarshal_sync_pid (some before)) ≡ ok m
unfolding marshal_sync_pid unmarshal_sync_pid sync_pid_field
unmarshal-marshal_sync_pid m before h = decode_fields-Decodes sync_pid_field _ before m (
    Decodes-append_int32 sync_pid_field _ 1 m.pid before before m
      (Decodes-nil sync_pid_field before) h (λ t. rw t refl) (omega arith) (omega arith))

-- A player is written as less than a hundred bytes, from which it is read back into any receiver.
pub marshal_player-ok :
    (m : UnityPlayer)
    → IsPlayer m
    → (bytes : List ℕ) × (marshal_player m ≡ ok bytes)
      × (length bytes < 100)
      × ((before : UnityPlayer) → unmarshal_player (some before) bytes ≡ ok m)
unfolding marshal_player unmarshal_player player_field
marshal_player-ok m (hpid, hp) =
    let (position, e, l, read) = marshal_position-ok m.p hp in
    (
      append_bytes (append_varint [] 1 (extend_int32 m.pid)) 2 position,
      rw e refl,
      omega (
        arith,
        l,
        length-append_bytes_le (append_varint [] 1 (extend_int32 m.pid)) 2 position,
        length-append_varint_le [] 1 (extend_int32 m.pid),
      ),
      λ before. decode_fields-Decodes player_field _ before m (
          Decodes-append_bytes player_field _ 2 position before (record before { pid = m.pid }) m
            (Decodes-append_int32 player_field _ 1 m.pid before before _
              (Decodes-nil player_field before) hpid (λ t. rw t refl) (omega arith) (omega arith))
            (rw (read before.p) refl) (omega arith) (omega arith) (omega (arith, l))),
    )

pub unmarshal-marshal_player :
    (m before : UnityPlayer)
    → IsPlayer m
    → (marshal_player m >>= unmarshal_player (some before)) ≡ ok m
unmarshal-marshal_player m before h =
    let (bytes, e, _, read) = marshal_player-ok m h in rw e (read before)

-- The players that are appended are decoded behind those that are there.
append_players-ok :
    (bytes : List ℕ) (ms : List UnityPlayer) (state : UnitySyncPlayers) (before : UnitySyncPlayers)
    → All IsPlayer ms
    → Decodes sync_players_field bytes before state
    → (out : List ℕ) × (append_players bytes ms ≡ ok out)
      × Decodes sync_players_field out before (record { players = state.players ++ ms })
unfolding append_players sync_players_field
append_players-ok bytes [] state before hs h = (bytes, refl, rw (append-nil state.players) h)
append_players-ok bytes (m ∷ ms) state before (hm, hs) h =
    let (data', e, l, read) = marshal_player-ok m hm in
    let next : UnitySyncPlayers = record { players = state.players ++ (m ∷ []) } in
    let (out, e', h') = append_players-ok (append_bytes bytes 1 data') ms next before hs (
      Decodes-append_bytes sync_players_field bytes 1 data' before state next h
        (rw (read zero_player) refl) (omega arith) (omega arith) (omega arith)) in
    (
      out,
      rw (e, e') refl,
      subst (λ ps. Decodes sync_players_field out before (record { players = ps }))
          (append_assoc state.players (m ∷ []) ms) h',
    )

-- Every view of players is written, and reading it gives the same players in the same order, whatever
-- the receiver held.
pub unmarshal-marshal_sync_players :
    (m before : UnitySyncPlayers)
    → All IsPlayer m.players
    → (marshal_sync_players m >>= unmarshal_sync_players (some before)) ≡ ok m
unfolding marshal_sync_players unmarshal_sync_players
unmarshal-marshal_sync_players m before h =
    let start : UnitySyncPlayers = record { players = [] } in
    let (out, e, d) =
      append_players-ok [] m.players start start h (Decodes-nil sync_players_field start) in
    rw e (decode_fields-Decodes sync_players_field out start m d)

pub unmarshal-marshal_move_package :
    (m before : UnityMovePackage)
    → IsPosition m.p
    → IsInt32 m.action_data
    → (marshal_move_package m >>= unmarshal_move_package (some before)) ≡ ok m
unfolding marshal_move_package unmarshal_move_package move_package_field
unmarshal-marshal_move_package m before hp ha =
    let (position, e, l, read) = marshal_position-ok m.p hp in
    rw e (
      decode_fields-Decodes move_package_field _ before m (
        Decodes-append_int32 move_package_field _ 2 m.action_data before (record before { p = m.p })
          m
          (Decodes-append_bytes move_package_field _ 1 position before before _
            (Decodes-nil move_package_field before) (rw (read before.p) refl) (omega arith)
            (omega arith) (omega (arith, l)))
          ha (λ t. rw t refl) (omega arith) (omega arith)))
