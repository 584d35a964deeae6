-- ===== src/Gnet/ConnManager/Examples.antt =====
-- Two connections, a limit of two.
use ginx.Prelude.{ℕ, ◌≡◌, refl, subst, none, some, List, [], ◌∷◌, nat_eq, pos}
use ginx.GoMap.{get, put}
use ginx.Gnet.Config.{Config, default_config}
use ginx.Gnet.ConnManager.{ConnManager, new_conn_manager, add}
use ginx.Gnet.ConnManager.Registry.{IsWf, ConnCall, adds, run, step, run-new_conn_manager-IsWf}

-- A connection is its identifier.
abbrev own : ℕ → ℕ
own c = c

abbrev two_at_most : Config
two_at_most = record default_config { max_conn = pos 2 }

abbrev calls : List (ConnCall own default_config)
calls = adds (some 5) ∷ adds (some 5) ∷ adds none ∷ adds (some 0) ∷ adds (some 6) ∷ []

run-new_conn_manager-IsWf_example :
    IsWf own default_config (run own default_config (new_conn_manager (some two_at_most)) calls)
run-new_conn_manager-IsWf_example =
    run-new_conn_manager-IsWf own default_config (some two_at_most) calls

abbrev full : ConnManager ℕ
full = record { connections = (5, 5) ∷ (0, 0) ∷ []; config = some two_at_most }

calls-full : run own default_config (new_conn_manager (some two_at_most)) calls ≡ full
unfolding run step add new_conn_manager get put
calls-full = refl

full-IsWf : IsWf own default_config full
full-IsWf =
    subst (IsWf own default_config) calls-full
      (run-new_conn_manager-IsWf own default_config (some two_at_most) calls)
