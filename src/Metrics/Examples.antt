-- ===== src/Metrics/Examples.antt =====
-- Two connections, one of them closed again.
use ginx.Prelude.{◌^◌, ◌≡◌, some, List, [], ◌∷◌, arith, pos}
use ginx.Metrics.{new_metrics, snapshot}
use ginx.Metrics.Totals.{MetricsCall, opens, closes, message, bytes_read, run, snapshot-run}

abbrev calls : List MetricsCall
calls = opens ∷ message ∷ bytes_read 12 ∷ opens ∷ closes ∷ bytes_read (2 ^ 64) ∷ []

snapshot-run_example :
    snapshot (some (run new_metrics calls))
    ≡ record { connections = pos 1; messages = 1; bytes_in = 12; bytes_out = 0; router_panics = 0 }
snapshot-run_example = snapshot-run calls (omega arith) (omega arith)
