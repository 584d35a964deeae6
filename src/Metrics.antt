-- ===== src/Metrics.antt =====
-- metrics/metrics.go: counters that the whole server adds to. Each is an atomic word of 64 bits; the
-- connections are a signed one, kept here as the word of its two's complement.
pub mod Totals
mod Examples
use ginx.Prelude.{ℕ, ◌+◌, ◌-◌, ◌%◌, ◌^◌, Option, none, some, ltb, if◌then◌else◌, ℤ, pos, negsuc}

pub record Metrics : Type 0 where
  pub connections : ℕ
  pub messages : ℕ
  pub bytes_in : ℕ
  pub bytes_out : ℕ
  pub router_panics : ℕ

abbrev pub new_metrics : Metrics
new_metrics = record {
  connections = 0;
  messages = 0;
  bytes_in = 0;
  bytes_out = 0;
  router_panics = 0;
}

-- An `int64` as a word.
abbrev pub word_of : ℤ → ℕ
word_of (pos n) = n % 2 ^ 64
word_of (negsuc n) = (2 ^ 64 - 1) - n % 2 ^ 64

-- `Add` on an atomic word.
abbrev pub add_word : ℕ → ℕ → ℕ
add_word a b = (a + b) % 2 ^ 64

pub add_connections : Metrics → ℤ → Metrics
add_connections m delta = record m { connections = add_word m.connections (word_of delta) }

pub inc_messages : Metrics → Metrics
inc_messages m = record m { messages = add_word m.messages 1 }

pub add_bytes_in : Metrics → ℕ → Metrics
add_bytes_in m value = record m { bytes_in = add_word m.bytes_in value }

pub add_bytes_out : Metrics → ℕ → Metrics
add_bytes_out m value = record m { bytes_out = add_word m.bytes_out value }

unfoldable pub inc_router_panics : Metrics → Metrics
inc_router_panics m = record m { router_panics = add_word m.router_panics 1 }

-- The reading of a word as an `int64`.
abbrev pub int64_of : ℕ → ℤ
int64_of w = if ltb w (2 ^ 63) then pos w else negsuc ((2 ^ 64 - 1) - w)

pub record Snapshot : Type 0 where
  pub connections : ℤ
  pub messages : ℕ
  pub bytes_in : ℕ
  pub bytes_out : ℕ
  pub router_panics : ℕ

-- A nil collector gives zeros.
pub snapshot : Option Metrics → Snapshot
snapshot none = record {
  connections = pos 0;
  messages = 0;
  bytes_in = 0;
  bytes_out = 0;
  router_panics = 0;
}
snapshot (some m) = record {
  connections = int64_of m.connections;
  messages = m.messages;
  bytes_in = m.bytes_in;
  bytes_out = m.bytes_out;
  router_panics = m.router_panics;
}
