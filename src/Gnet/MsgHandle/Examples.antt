-- ===== src/Gnet/MsgHandle/Examples.antt =====
-- Three requests, of which the second panics.
use ginx.Prelude.{ℕ, ◌≡◌, refl, some, List, [], ◌∷◌, ◌++◌, arith, if◌then◌else◌, ◌==◌, nat_eq}
use ginx.GoMap.{get}
use ginx.Metrics.{Metrics, new_metrics}
use ginx.Gnet.MsgHandle.{returned, panicked, Router, MsgHandle, start_one_worker, run_router}
use ginx.Gnet.MsgHandle.Routing.{start_one_worker-all}

-- A request is its message's number; a router notes it, and panics at 13.
abbrev noting : Router ℕ (List ℕ)
noting = record {
  pre_handle = λ r w. returned w;
  handle = λ r w. if r == 13 then panicked w else returned (w ++ r ∷ []);
  post_handle = λ r w. returned w;
}

abbrev handle : MsgHandle ℕ (List ℕ)
handle = record {
  apis = (1, noting) ∷ (13, noting) ∷ [];
  metrics = some new_metrics;
  panic_handler = some (λ r w. w ++ 0 ∷ []);
}

start_one_worker-all_example :
    (m' : Metrics) × ((start_one_worker (λ r. r) handle (1 ∷ 13 ∷ 1 ∷ []) []).0
      ≡ record handle { metrics = some m' })
    × (m'.router_panics ≡ 1)
    × ((start_one_worker (λ r. r) handle (1 ∷ 13 ∷ 1 ∷ []) []).1 ≡ 1 ∷ 0 ∷ 1 ∷ [])
unfolding get run_router
start_one_worker-all_example =
    start_one_worker-all (λ r. r) handle new_metrics (1 ∷ 13 ∷ 1 ∷ []) [] refl (omega arith)
