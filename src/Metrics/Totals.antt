-- ===== src/Metrics/Totals.antt =====
-- What the counters show after any calls.
use ginx.Prelude.{
  ℕ, suc, ◌+◌, ◌-◌, ◌%◌, ◌^◌, ◌≤◌, ◌<◌, ◌≡◌, some, List, [], ◌∷◌, arith, pos, negsuc,
}
use ginx.Metrics.{
  Metrics, new_metrics, add_connections, inc_messages, add_bytes_in, add_bytes_out,
  inc_router_panics, snapshot,
}

pub data MetricsCall : Type 0 where
  opens closes message panics : MetricsCall
  bytes_read bytes_sent : ℕ → MetricsCall

-- Opening and closing are the server's calls, with 1 and with -1.
unfoldable pub step : Metrics → MetricsCall → Metrics
step m opens = add_connections m (pos 1)
step m closes = add_connections m (negsuc 0)
step m message = inc_messages m
step m panics = inc_router_panics m
step m (bytes_read n) = add_bytes_in m n
step m (bytes_sent n) = add_bytes_out m n

unfoldable pub run : Metrics → List MetricsCall → Metrics
run m [] = m
run m (c ∷ cs) = run (step m c) cs

-- What was done, in numbers that do not wrap.
pub record Tally : Type 0 where
  pub opened : ℕ
  pub closed : ℕ
  pub messages : ℕ
  pub panics_seen : ℕ
  pub read : ℕ
  pub sent : ℕ

abbrev counted : MetricsCall → Tally → Tally
counted opens t = record t { opened = suc t.opened }
counted closes t = record t { closed = suc t.closed }
counted message t = record t { messages = suc t.messages }
counted panics t = record t { panics_seen = suc t.panics_seen }
counted (bytes_read n) t = record t { read = t.read + n }
counted (bytes_sent n) t = record t { sent = t.sent + n }

abbrev pub tally : List MetricsCall → Tally
tally [] = record { opened = 0; closed = 0; messages = 0; panics_seen = 0; read = 0; sent = 0 }
tally (c ∷ cs) = counted c (tally cs)

-- The counters of a collector, ahead of another by a tally.
record Ahead (m m' : Metrics) (t : Tally) : Type 0 where
  connections : (m'.connections + t.closed) % 2 ^ 64 ≡ (m.connections + t.opened) % 2 ^ 64
  connections_word : m'.connections < 2 ^ 64
  messages : m'.messages ≡ (m.messages + t.messages) % 2 ^ 64
  panics_seen : m'.router_panics ≡ (m.router_panics + t.panics_seen) % 2 ^ 64
  read : m'.bytes_in ≡ (m.bytes_in + t.read) % 2 ^ 64
  sent : m'.bytes_out ≡ (m.bytes_out + t.sent) % 2 ^ 64

-- Each counter fits its word.
record IsWords (m : Metrics) : Type 0 where
  connections : m.connections < 2 ^ 64
  messages : m.messages < 2 ^ 64
  panics_seen : m.router_panics < 2 ^ 64
  read : m.bytes_in < 2 ^ 64
  sent : m.bytes_out < 2 ^ 64

module _ (m : Metrics) (w : IsWords m) where
  step-IsWords : (c : MetricsCall) → IsWords (step m c)
  unfolding step add_connections inc_messages inc_router_panics add_bytes_in add_bytes_out
  step-IsWords opens = ground (arith, w)
  step-IsWords closes = ground (arith, w)
  step-IsWords message = ground (arith, w)
  step-IsWords panics = ground (arith, w)
  step-IsWords (bytes_read n) = ground (arith, w)
  step-IsWords (bytes_sent n) = ground (arith, w)

  no_calls : Ahead m m (tally [])
  no_calls = record {
    connections = omega (arith, w.connections);
    connections_word = w.connections;
    messages = omega (arith, w.messages);
    panics_seen = omega (arith, w.panics_seen);
    read = omega (arith, w.read);
    sent = omega (arith, w.sent);
  }

  step-Ahead :
      (c : MetricsCall) (m' : Metrics) (t : Tally)
      → Ahead (step m c) m' t
      → Ahead m m' (counted c t)
  unfolding step add_connections inc_messages inc_router_panics add_bytes_in add_bytes_out
  step-Ahead opens m' t a = ground (arith, a)
  step-Ahead closes m' t a = ground (arith, a)
  step-Ahead message m' t a = ground (arith, a)
  step-Ahead panics m' t a = ground (arith, a)
  step-Ahead (bytes_read n) m' t a = ground (arith, a)
  step-Ahead (bytes_sent n) m' t a = ground (arith, a)

run-Ahead : (m : Metrics) (cs : List MetricsCall) → IsWords m → Ahead m (run m cs) (tally cs)
unfolding run
run-Ahead m [] w = no_calls m w
run-Ahead m (c ∷ cs) w =
    step-Ahead m w c (run (step m c) cs) (tally cs) (run-Ahead (step m c) cs (step-IsWords m w c))

-- After any calls on a new collector the snapshot shows the numbers of messages and panics and of
-- bytes, modulo 2^64, and the number of connections that are open, as long as no more were closed
-- than opened and fewer than 2^63 are open: the order of the calls does not show.
pub snapshot-run :
    (cs : List MetricsCall)
    → (tally cs).closed ≤ (tally cs).opened
    → (tally cs).opened < (tally cs).closed + 2 ^ 63
    → snapshot (some (run new_metrics cs)) ≡ record {
      connections = pos ((tally cs).opened - (tally cs).closed);
      messages = (tally cs).messages % 2 ^ 64;
      bytes_in = (tally cs).read % 2 ^ 64;
      bytes_out = (tally cs).sent % 2 ^ 64;
      router_panics = (tally cs).panics_seen % 2 ^ 64;
    }
unfolding snapshot
snapshot-run cs h g =
    let a = run-Ahead new_metrics cs (record {
      connections = omega arith;
      messages = omega arith;
      panics_seen = omega arith;
      read = omega arith;
      sent = omega arith;
    }) in
    let open_now : (run new_metrics cs).connections ≡ (tally cs).opened - (tally cs).closed =
      omega (arith, a.connections, a.connections_word) in
    ground (arith, open_now, a.messages, a.panics_seen, a.read, a.sent)

-- The count of connections after one more and one less.
pub add_connections-one :
    (m : Metrics) (n : ℕ)
    → m.connections ≡ n % 2 ^ 64
    → (add_connections m (pos 1)).connections ≡ (n + 1) % 2 ^ 64
unfolding add_connections
add_connections-one m n h = omega (arith, h)

pub add_connections-less :
    (m : Metrics) (n : ℕ)
    → m.connections ≡ (n + 1) % 2 ^ 64
    → (add_connections m (negsuc 0)).connections ≡ n % 2 ^ 64
unfolding add_connections
add_connections-less m n h = omega (arith, h)
