-- ===== src/Gnet/ConnManager.antt =====
-- gnet/connmanager.go: the connections of a server, by identifier. A connection is what
-- `GetConnId` is asked of; the lock makes each method one step.
pub mod Registry
pub mod Clearing
pub mod Effects
mod Examples
use ginx.Prelude.{
  ℕ, ◌&&◌, Option, none, some, List, [], ◌∷◌, leb, nat_eq, Result, ok, err, ◌>>=◌, ◌>>◌, reject,
  or_fail, ℤ, is_positive, to_nat,
}
use ginx.GoMap.{GoMap, get, put, delete, has, size}
use ginx.Gnet.Config.{Config, effective_config}

pub data ConnError : Type 0 where
  connection_is_nil id_exists maximum_reached connection_not_found : ConnError

pub record ConnManager (C : Type 0) : Type 0 where
  pub connections : GoMap ℕ C
  pub config : Option Config

unfoldable pub new_conn_manager : {C : Type 0} → Option Config → ConnManager C
new_conn_manager config = record { connections = []; config = config }

-- The limit of the effective configuration; 0 or below is none.
abbrev pub max_conn_of : {C : Type 0} → Config → ConnManager C → ℤ
max_conn_of global cm = (effective_config global cm.config).max_conn

module _ {C : Type 0} (get_conn_id : C → ℕ) (global : Config) where
  unfoldable pub add : ConnManager C → Option C → Result ConnError (ConnManager C)
  add cm none = err connection_is_nil
  add cm (some conn) = do
    reject (has (get_conn_id conn) cm.connections) id_exists
    let max_conn = max_conn_of global cm
    reject (is_positive max_conn && leb (to_nat max_conn) (size cm.connections)) maximum_reached
    ok (record cm { connections = put (get_conn_id conn) conn cm.connections })

module _ {C : Type 0} where
  unfoldable pub remove : ConnManager C → ℕ → ConnManager C
  remove cm conn_id = record cm { connections = delete conn_id cm.connections }

  pub get_conn : ConnManager C → ℕ → Result ConnError C
  get_conn cm conn_id = or_fail (get conn_id cm.connections) connection_not_found

  pub len : ConnManager C → ℕ
  len cm = size cm.connections

  -- The values of the map, in the order of the range.
  abbrev pub snapshot : GoMap ℕ C → List C
  snapshot [] = []
  snapshot ((id, conn) ∷ rest) = conn ∷ snapshot rest

  -- `Stop` on each, in what the connections share.
  unfoldable pub stop_all : {W : Type 0} → (C → W → W) → List C → W → W
  stop_all stop [] w = w
  stop_all stop (conn ∷ conns) w = stop_all stop conns (stop conn w)

  unfoldable pub clear_conn : {W : Type 0} → (C → W → W) → ConnManager C → W → ConnManager C × W
  clear_conn stop cm w = (record cm { connections = [] }, stop_all stop (snapshot cm.connections) w)
