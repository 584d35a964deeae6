-- ===== src/Gnet/MsgHandle.antt =====
-- gnet/msghandler.go: the router of each message, and what a panic in it does. A router's methods and
-- the panic callback are arguments of the model, as functions of what they share; a method returns or
-- panics. What is printed is left out.
pub mod Routing
mod Examples
use ginx.Prelude.{ℕ, Option, none, some, List, [], ◌∷◌, nat_eq, Result, ok, ◌>>=◌, ◌>>◌, reject}
use ginx.GoMap.{GoMap, get, put, has}
use ginx.Metrics.{Metrics, inc_router_panics}

pub data Outcome (W : Type 0) : Type 0 where
  returned panicked : W → Outcome W

pub record Router (R W : Type 0) : Type 0 where
  pub pre_handle : R → W → Outcome W
  pub handle : R → W → Outcome W
  pub post_handle : R → W → Outcome W

pub record MsgHandle (R W : Type 0) : Type 0 where
  pub apis : GoMap ℕ (Router R W)
  pub metrics : Option Metrics
  pub panic_handler : Option (R → W → W)

pub data RouterError : Type 0 where
  repeated_api : RouterError

abbrev and_then : {W : Type 0} → Outcome W → (W → Outcome W) → Outcome W
and_then (returned w) f = f w
and_then (panicked w) f = panicked w

abbrev raised : Option Metrics → Option Metrics
raised none = none
raised (some m) = some (inc_router_panics m)

module _ {R W : Type 0} where
  -- The three methods, until one panics.
  unfoldable pub run_router : Router R W → R → W → Outcome W
  run_router router request w =
      and_then (and_then (router.pre_handle request w) (router.handle request))
        (router.post_handle request)

  -- The deferred function.
  recover : MsgHandle R W → R → Outcome W → MsgHandle R W × W
  recover mh request (returned w) = (mh, w)
  recover mh request (panicked w) =
      let counted = record mh { metrics = raised mh.metrics } in
      elim mh.panic_handler [ none ↦ (counted, w) | some f ↦ (counted, f request w) ]

  pub do_msg_handler : (R → ℕ) → MsgHandle R W → Option R → W → MsgHandle R W × W
  unfolding recover
  do_msg_handler get_msg_id mh none w = (mh, w)
  do_msg_handler get_msg_id mh (some request) w = elim (get (get_msg_id request) mh.apis) [
    | none ↦ (mh, w)
    | some router ↦ recover mh request (run_router router request w)
  ]

  -- A worker handles the requests of its queue until that is closed and empty.
  pub start_one_worker : (R → ℕ) → MsgHandle R W → List R → W → MsgHandle R W × W
  unfolding do_msg_handler
  start_one_worker get_msg_id mh [] w = (mh, w)
  start_one_worker get_msg_id mh (r ∷ rs) w =
      let (mh', w') = do_msg_handler get_msg_id mh (some r) w in
      start_one_worker get_msg_id mh' rs w'

  pub set_metrics : MsgHandle R W → Option Metrics → MsgHandle R W
  set_metrics mh value = record mh { metrics = value }

  pub set_panic_handler : MsgHandle R W → Option (R → W → W) → MsgHandle R W
  set_panic_handler mh f = record mh { panic_handler = f }

  pub add_router : MsgHandle R W → ℕ → Router R W → Result RouterError (MsgHandle R W)
  add_router mh msg_id router = do
    reject (has msg_id mh.apis) repeated_api
    ok (record mh { apis = put msg_id router mh.apis })
