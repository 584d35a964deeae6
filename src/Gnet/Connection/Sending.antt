-- ===== src/Gnet/Connection/Sending.antt =====
-- What a send puts into the queue, on every branch.
use ginx.Prelude.{
  ℕ, ◌≡◌, inl, inr, Bool, false, none, some, List, [], ◌∷◌, ◌++◌, arith, length, ok, err,
  Result-cases,
}
use ginx.Gnet.Config.{Config}
use ginx.Gnet.Message.{new_msg_package}
use ginx.Gnet.DataPack.{DataPack, pack}
use ginx.Metrics.{add_bytes_out}
use ginx.Gnet.Connection.{Seen, Outbox, SendError, send, sent_bytes, queue_bytes}

module _ (global : Config) (d : DataPack) (seen : Seen) (nonblocking : Bool) (msg_id : ℕ)
    (payload : List ℕ) (out : Outbox) where
  -- A send that fails, for whatever reason, leaves the queue and the collector as they were.
  pub send-err :
      (e : SendError) (out' : Outbox)
      → send global d seen nonblocking msg_id payload out ≡ (err e, out')
      → out' ≡ out
  unfolding send queue_bytes
  send-err e out' h = elim (Result-cases (sent_bytes global d seen nonblocking msg_id payload)) [
    | inl (bs, f) ↦ absurd (ground (arith, h, f))
    | inr (x, f) ↦ ground (arith, h, f)
  ]

  -- A send that succeeds has seen the connection open twice and its context live three times, and has
  -- put exactly the packet of the message behind the queue and counted its bytes.
  pub send-ok :
      (out' : Outbox)
      → send global d seen nonblocking msg_id payload out ≡ (ok tt, out')
      → (bytes : List ℕ) × (pack global d (some (new_msg_package msg_id payload)) ≡ ok bytes)
        × (out' ≡ record {
          msg_chan = out.msg_chan ++ bytes ∷ [];
          metrics = add_bytes_out out.metrics (length bytes);
        })
        × (seen.closed_first ≡ false)
        × (seen.closed_second ≡ false)
        × (seen.ctx_first ≡ none)
        × (seen.ctx_second ≡ none)
        × (seen.ctx_third ≡ none)
  unfolding send queue_bytes sent_bytes
  send-ok out' h = elim (Result-cases (pack global d (some (new_msg_package msg_id payload)))) [
    | inl (bs, f) ↦ (
      bs,
      f,
      ground (arith, h, f),
      ground (arith, h, f),
      ground (arith, h, f),
      ground (arith, h, f),
      ground (arith, h, f),
      ground (arith, h, f),
    )
    | inr (x, f) ↦ absurd (ground (arith, h, f))
  ]
