-- ===== src/Gnet/ConnManager/Effects.antt =====
-- What removing and clearing leave of a manager.
use ginx.Prelude.{ℕ, ◌≡◌, refl, Option, [], nat_eq, string_eq, int_eq}
use ginx.GoMap.{delete}
use ginx.Gnet.ConnManager.{ConnManager, new_conn_manager, remove, clear_conn, snapshot, stop_all}
use ginx.Gnet.Config.{Config}

pub new_conn_manager-connections :
    (C : Type 0) (config : Option Config) → (new_conn_manager {C = C} config).connections ≡ []
unfolding new_conn_manager
new_conn_manager-connections C config = refl

module _ {C : Type 0} (cm : ConnManager C) where
  pub remove-connections : (id : ℕ) → (remove cm id).connections ≡ delete id cm.connections
  unfolding remove
  remove-connections id = refl

  module _ {W : Type 0} (stop : C → W → W) (w : W) where
    pub clear_conn-connections : (clear_conn stop cm w).0.connections ≡ []
    unfolding clear_conn
    clear_conn-connections = refl

    pub clear_conn-stop_all : (clear_conn stop cm w).1 ≡ stop_all stop (snapshot cm.connections) w
    unfolding clear_conn
    clear_conn-stop_all = refl
