-- ===== src/Gnet/MsgHandle/Routing.antt =====
-- A worker goes through its whole queue, whatever panics.
use ginx.Prelude.{
  ℕ, ◌+◌, ◌%◌, ◌^◌, ◌<◌, ◌≡◌, refl, ◌⊎◌, inl, inr, Option, none, some, List, [], ◌∷◌, arith, nat_eq,
  Option-cases,
}
use ginx.GoMap.{GoMap, get}
use ginx.Metrics.{Metrics, inc_router_panics}
use ginx.Gnet.MsgHandle.{
  Outcome, returned, panicked, Router, MsgHandle, run_router, do_msg_handler, start_one_worker,
  recover,
}

module _ {R W : Type 0} (get_msg_id : R → ℕ) where
  -- What one request does to what the routers share: a panic leaves what it had done, and what the
  -- callback does then.
  abbrev pub settled : Option (R → W → W) → R → Outcome W → W
  settled f request (returned w) = w
  settled none request (panicked w) = w
  settled (some f) request (panicked w) = f request w

  abbrev pub routed : GoMap ℕ (Router R W) → Option (R → W → W) → R → W → W
  routed apis f request w = elim (get (get_msg_id request) apis) [
    | none ↦ w
    | some router ↦ settled f request (run_router router request w)
  ]

  abbrev pub panics : GoMap ℕ (Router R W) → R → W → ℕ
  panics apis request w = elim (get (get_msg_id request) apis) [
    | none ↦ 0
    | some router ↦ elim (run_router router request w) [ returned v ↦ 0 | panicked v ↦ 1 ]
  ]

  -- The requests of a queue, each upon what the ones before it left, and the panics among them.
  abbrev pub all_routed : GoMap ℕ (Router R W) → Option (R → W → W) → List R → W → W × ℕ
  all_routed apis f [] w = (w, 0)
  all_routed apis f (r ∷ rs) w =
      let (end, n) = all_routed apis f rs (routed apis f r w) in (end, panics apis r w + n)

  abbrev pub panics_of : MsgHandle R W → ℕ
  panics_of mh = elim mh.metrics [ none ↦ 0 | some m ↦ m.router_panics ]

  Outcome-cases : (o : Outcome W) → ((v : W) × (o ≡ returned v)) ⊎ ((v : W) × (o ≡ panicked v))
  Outcome-cases (returned v) = inl (v, refl)
  Outcome-cases (panicked v) = inr (v, refl)

  one :
      (mh : MsgHandle R W) (m : Metrics) (r : R) (w : W)
      → mh.metrics ≡ some m
      → m.router_panics < 2 ^ 64
      → (m' : Metrics) × ((do_msg_handler get_msg_id mh (some r) w).0
          ≡ record mh { metrics = some m' })
        × (m'.router_panics ≡ (m.router_panics + panics mh.apis r w) % 2 ^ 64)
        × ((do_msg_handler get_msg_id mh (some r) w).1 ≡ routed mh.apis mh.panic_handler r w)
  unfolding do_msg_handler recover inc_router_panics
  one mh m r w h small = elim (Option-cases (get (get_msg_id r) mh.apis)) [
    | inl e ↦ (m, ground (arith, e, h), ground (arith, e, small), ground (arith, e))
    | inr (router, e) ↦ elim (Outcome-cases (run_router router r w)) [
      | inl (v, f) ↦ (m, ground (arith, e, f, h), ground (arith, e, f, small), ground (arith, e, f))
      | inr (v, f) ↦ elim (Option-cases mh.panic_handler) [
        | inl g ↦ (
          inc_router_panics m,
          ground (arith, e, f, g, h),
          ground (arith, e, f),
          ground (arith, e, f, g),
        )
        | inr (q, g) ↦ (
          inc_router_panics m,
          ground (arith, e, f, g, h),
          ground (arith, e, f),
          ground (arith, e, f, g),
        )
      ]
    ]
  ]

  -- With a collector whose counter of panics fits 64 bits: a worker handles the requests of its
  -- queue one after another, also behind one that panicked; the routers and the callback stay as
  -- they were, and the counter rises by the number of requests that panicked, modulo 2^64.
  pub start_one_worker-all :
      (mh : MsgHandle R W) (m : Metrics) (rs : List R) (w : W)
      → mh.metrics ≡ some m
      → m.router_panics < 2 ^ 64
      → (m' : Metrics) × ((start_one_worker get_msg_id mh rs w).0 ≡ record mh { metrics = some m' })
        × (m'.router_panics
            ≡ (m.router_panics + (all_routed mh.apis mh.panic_handler rs w).1) % 2 ^ 64)
        × ((start_one_worker get_msg_id mh rs w).1 ≡ (all_routed mh.apis mh.panic_handler rs w).0)
  unfolding start_one_worker
  start_one_worker-all mh m [] w h small = (m, ground (arith, h), omega (arith, small), refl)
  start_one_worker-all mh m (r ∷ rs) w h small =
      let (m', e, n, f) = one mh m r w h small in
      let (m'', e', n', f') =
        start_one_worker-all (record mh { metrics = some m' }) m' rs
          (routed mh.apis mh.panic_handler r w) refl (omega (arith, n)) in
      rw (e, f, start_one_worker) (m'', e', omega (arith, n, n'), f')
