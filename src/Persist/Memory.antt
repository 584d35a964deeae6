-- ===== src/Persist/Memory.antt =====
-- persist/player.go and persist/memory.go: the players by identifier. A store keeps copies and hands
-- out copies, so a player is a value here; the lock makes each method one step.
pub mod Contents
mod Examples
use ginx.Prelude.{
  ℕ, String, not, Option, none, some, List, [], if◌then◌else◌, ◌==◌, nat_eq, Result, ok, err, ◌>>=◌,
  ◌>>◌, reject, or_fail,
}
use ginx.GoMap.{GoMap, get, put, delete, has}

pub record Player : Type 0 where
  pub player_id : ℕ
  pub account_id : String
  pub payload : List ℕ
  pub updated_at : ℕ

-- What a context's `Err` gives once it is done.
pub data ContextError : Type 0 where
  canceled deadline_exceeded : ContextError

pub data Context : Type 0 where
  nil_context live : Context
  done : ContextError → Context

pub data PersistError (E : Type 0) : Type 0 where
  player_not_found player_is_invalid : PersistError E
  of_context : ContextError → PersistError E
  of_file : E → PersistError E

abbrev pub MemoryStore : Type 0
MemoryStore = GoMap ℕ Player

pub new_memory_store : MemoryStore
new_memory_store = []

module _ {E : Type 0} where
  abbrev pub context_error : Context → Result (PersistError E) (Unit {0})
  context_error nil_context = ok tt
  context_error live = ok tt
  context_error (done e) = err (of_context e)

  -- A player that may be saved: not nil, with an identifier.
  abbrev pub valid : Option Player → Result (PersistError E) Player
  valid none = err player_is_invalid
  valid (some player) = if player.player_id == 0 then err player_is_invalid else ok player

  unfoldable pub load : MemoryStore → Context → ℕ → Result (PersistError E) Player
  load players ctx player_id = do
    context_error ctx
    or_fail (get player_id players) player_not_found

  unfoldable pub save : MemoryStore → Context → Option Player → Result (PersistError E) MemoryStore
  save players ctx player = do
    context_error ctx
    value ← valid player
    ok (put value.player_id value players)

  unfoldable pub delete_player : MemoryStore → Context → ℕ → Result (PersistError E) MemoryStore
  delete_player players ctx player_id = do
    context_error ctx
    reject (not (has player_id players)) player_not_found
    ok (delete player_id players)
