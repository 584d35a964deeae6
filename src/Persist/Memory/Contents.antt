-- ===== src/Persist/Memory/Contents.antt =====
-- What a store holds after a call.
use ginx.Prelude.{ℕ, ◌≡◌, some, arith, if◌then◌else◌, ◌==◌, nat_eq, ok, err}
use ginx.GoMap.Laws.{get-put, get-delete}
use ginx.Persist.Memory.{
  Player, MemoryStore, Context, live, load, save, delete_player, player_not_found,
}

module _ {E : Type 0} where
  -- A player that was saved is what a live load of its identifier gives, and every other identifier
  -- gives what it gave before.
  pub load-save :
      (players players' : MemoryStore) (ctx : Context) (player : Player) (k : ℕ)
      → save {E = E} players ctx (some player) ≡ ok players'
      → load {E = E} players' live k
        ≡ (if player.player_id == k then ok player else load {E = E} players live k)
  unfolding load save
  load-save players players' ctx player k h =
      ground (arith, h, get-put k player.player_id player players)

  -- A player that was deleted is not found, every other identifier gives what it gave before, and a
  -- second deletion finds nothing.
  pub load-delete_player :
      (players players' : MemoryStore) (ctx : Context) (id : ℕ)
      → delete_player {E = E} players ctx id ≡ ok players'
      → ((k : ℕ)
          → load {E = E} players' live k
            ≡ (if id == k then err player_not_found else load {E = E} players live k))
        × (delete_player {E = E} players' live id ≡ err player_not_found)
  unfolding load delete_player
  load-delete_player players players' ctx id h =
      (λ k. ground (arith, h, get-delete k id players), ground (arith, h, get-delete id id players))
