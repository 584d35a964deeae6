-- ===== src/Gnet/Connection.antt =====
-- gnet/connection.go: what a connection sends, how a packet is written, the properties, and the loop
-- that reads requests. What the connection shares with its goroutines at a moment (closed or not,
-- contexts, the send gate, room in the queue) is read by the code several times; each reading is an
-- argument.
pub mod Writing
pub mod Sending
pub mod Reading
pub mod Delivery
mod Examples
use ginx.Prelude.{
  ℕ, zero, suc, ◌+◌, String, Bool, true, false, not, Option, none, some, List, [], ◌∷◌, ◌++◌,
  if◌then◌else◌, ◌==◌, nat_eq, string_eq, length, drop, Result, ok, err, ◌>>=◌, ◌>>◌, reject,
  is_positive,
}
use ginx.GoMap.{GoMap, get, put, delete}
use ginx.Gnet.Config.{Config}
use ginx.Gnet.Message.{Message, new_msg_package}
use ginx.Gnet.DataPack.{DataPack, PackError, pack, read_message}
use ginx.Gnet.DataPack.Stream.{Reader}
use ginx.Limit.TokenBucket.{Float, TokenBucket, new_token_bucket, allow}
use ginx.Metrics.{Metrics, add_bytes_out, add_bytes_in, inc_messages}

-- `io.Writer`: the number of bytes written, an error or none, and the writer after it.
pub record Writer (W E : Type 0) : Type 0 where
  pub write : List ℕ → W → ℕ × Option E × W

pub data WriteError (E : Type 0) : Type 0 where
  short_write : WriteError E
  of_writer : E → WriteError E

module _ {W E : Type 0} (writer : Writer W E) where
  -- A round takes at least one byte, so that there are no more rounds than bytes.
  write_rounds : ℕ → List ℕ → W → Result (WriteError E) (Unit {0}) × W
  write_rounds fuel [] w = (ok tt, w)
  write_rounds zero (b ∷ bs) w = (err short_write, w)
  write_rounds (suc fuel) (b ∷ bs) w =
      let (written, failure, w') = writer.write (b ∷ bs) w in
      let rest = write_rounds fuel (drop written (b ∷ bs)) w' in
      elim failure [
        | some e ↦ (err (of_writer e), w')
        | none ↦ if written == 0 then (err short_write, w') else rest
      ]

  pub write_full : List ℕ → W → Result (WriteError E) (Unit {0}) × W
  unfolding write_rounds
  write_full bytes w = write_rounds (length bytes) bytes w

pub data SendError : Type 0 where
  connection_closed send_queue_full canceled deadline_exceeded : SendError
  of_pack : PackError → SendError

-- How a `select` that waits ends.
pub data Waited : Type 0 where
  got_it closed_meanwhile : Waited
  context_ended : SendError → Waited

-- What a call of `send` sees, in the order in which it looks: `gate_free` and `has_room` are for a
-- call that does not wait, `gate` and `room` for one that does.
pub record Seen : Type 0 where
  pub closed_first : Bool
  pub ctx_first : Option SendError
  pub gate_free : Bool
  pub gate : Waited
  pub closed_second : Bool
  pub ctx_second : Option SendError
  pub ctx_third : Option SendError
  pub has_room : Bool
  pub room : Waited

abbrev pub ctx_ok : Option SendError → Result SendError (Unit {0})
ctx_ok none = ok tt
ctx_ok (some e) = err e

abbrev pub waited : Waited → Result SendError (Unit {0})
waited got_it = ok tt
waited closed_meanwhile = err connection_closed
waited (context_ended e) = err e

-- One of the two `select`s, by whether the call waits.
abbrev pub acquire : Bool → Bool → Waited → Result SendError (Unit {0})
acquire true free w = reject (not free) send_queue_full
acquire false free w = waited w

-- The bytes that a call of `send` is to put into the queue, or its error.
pub sent_bytes : Config → DataPack → Seen → Bool → ℕ → List ℕ → Result SendError (List ℕ)
sent_bytes global d seen nonblocking msg_id payload = do
  reject seen.closed_first connection_closed
  ctx_ok seen.ctx_first
  acquire nonblocking seen.gate_free seen.gate
  reject seen.closed_second connection_closed
  ctx_ok seen.ctx_second
  msg ← packed (pack global d (some (new_msg_package msg_id payload)))
  ctx_ok seen.ctx_third
  acquire nonblocking seen.has_room seen.room
  ok msg
  where
    packed : Result PackError (List ℕ) → Result SendError (List ℕ)
    packed (ok bs) = ok bs
    packed (err e) = err (of_pack e)

-- `msgChan`, and the collector.
pub record Outbox : Type 0 where
  pub msg_chan : List (List ℕ)
  pub metrics : Metrics

queue_bytes : Result SendError (List ℕ) → Outbox → Result SendError (Unit {0}) × Outbox
queue_bytes (err e) out = (err e, out)
queue_bytes (ok msg) out = (
  ok tt,
  record { msg_chan = out.msg_chan ++ msg ∷ []; metrics = add_bytes_out out.metrics (length msg) },
)

pub send :
    Config → DataPack → Seen → Bool → ℕ → List ℕ → Outbox → Result SendError (Unit {0}) × Outbox
unfolding sent_bytes queue_bytes
send global d seen nonblocking msg_id payload out =
    queue_bytes (sent_bytes global d seen nonblocking msg_id payload) out

-- `SendMsgContext` waits, `SendBuffMsg` does not and has a context that never ends.
pub send_msg_context :
    Config → DataPack → Seen → ℕ → List ℕ → Outbox → Result SendError (Unit {0}) × Outbox
send_msg_context global d seen msg_id payload out = send global d seen false msg_id payload out

pub send_buff_msg :
    Config → DataPack → Seen → ℕ → List ℕ → Outbox → Result SendError (Unit {0}) × Outbox
send_buff_msg global d seen msg_id payload out =
    send global d (record seen { ctx_first = none; ctx_second = none; ctx_third = none }) true
      msg_id payload out

module _ {V : Type 0} where
  pub set_property : String → V → GoMap String V → GoMap String V
  set_property key value property = put key value property

  pub get_property : String → GoMap String V → Option V
  get_property key property = get key property

  pub remove_property : String → GoMap String V → GoMap String V
  remove_property key property = delete key property

-- The limit that the configuration asks for, in the connection.
pub request_limit : {F : Type 0} → Float F → Config → ℕ → Option (TokenBucket F)
request_limit float settings now =
    if is_positive settings.message_rate_limit
    then elim (new_token_bucket float settings.message_rate_limit
        (if is_positive settings.message_rate_burst
          then settings.message_rate_burst
          else settings.message_rate_limit)
        now) [ ok tb ↦ some tb | err e ↦ none ]
    else none

pub data ReaderEnd (Q : Type 0) : Type 0 where
  read_failed : PackError → ReaderEnd Q
  rate_exceeded out_of_fuel : ReaderEnd Q
  queue_failed : Q → ReaderEnd Q

-- What the loop changes: the limit, the collector, and whatever `SendMsgToTaskQueue` changes.
pub record ReaderState (F S : Type 0) : Type 0 where
  pub limit : Option (TokenBucket F)
  pub metrics : Metrics
  pub tasks : S

abbrev queue_end : {Q : Type 0} → Option Q → Option (ReaderEnd Q)
queue_end none = none
queue_end (some q) = some (queue_failed q)

module _ {F S Q : Type 0} (float : Float F) (send_to_task_queue : Message → S → Option Q × S)
    (clock : ℕ → ℕ) where
  -- The limit's answer, which a connection without a limit does not ask for.
  allowed : Option (TokenBucket F) → ℕ → Bool × Option (TokenBucket F)
  allowed none now = (true, none)
  allowed (some tb) now = allow float (some tb) now

  -- One message that was read: counted and handed on.
  dispatch : Message → ℕ → ReaderState F S → Option (ReaderEnd Q) × ReaderState F S
  unfolding allowed
  dispatch msg now s =
      let (admitted, limit) = allowed s.limit now in
      let (failure, tasks) = send_to_task_queue msg s.tasks in
      let counted = add_bytes_in (inc_messages s.metrics) msg.data_len in
      if not admitted
      then (some rate_exceeded, record s { limit = limit })
      else (queue_end failure, record { limit = limit; metrics = counted; tasks = tasks })

  -- The loop of `StartReader`, with a reading of the clock for each round. Each round takes a header
  -- of eight bytes from the stream, or ends.
  unfoldable pub start_reader :
      Config → DataPack → ℕ → ℕ → Reader → ReaderState F S → ReaderEnd Q × ReaderState F S
  unfolding dispatch
  start_reader global d zero n r s = (out_of_fuel, s)
  start_reader global d (suc fuel) n r s = elim (read_message global d (some r)) [
    | err e ↦ (read_failed e, s)
    | ok (msg, r') ↦
        let (stop, s') = dispatch msg (clock n) s in
        let rest = start_reader global d fuel (suc n) r' s' in
        elim stop [ some e ↦ (e, s') | none ↦ rest ]
  ]
