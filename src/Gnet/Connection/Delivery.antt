-- ===== src/Gnet/Connection/Delivery.antt =====
-- From the sends of one side to the reader of the other.
use ginx.Prelude.{
  ℕ, ◌^◌, ◌<◌, ◌≡◌, refl, sym, ap, ◌∙◌, Bool, Option, none, List, [], ◌∷◌, ◌++◌, arith, nat_eq,
  length, All, Result, ok, err, append_assoc, append-nil,
}
use ginx.Gnet.Config.{Config}
use ginx.Gnet.Message.{Message, new_msg_package}
use ginx.Gnet.DataPack.{DataPack, io}
use ginx.Gnet.DataPack.Stream.{Reader, contents, ended}
use ginx.Gnet.DataPack.Format.{Fits, limit_of, pack-ok_Fits}
use ginx.Gnet.DataPack.RoundTrip.{IsWire}
use ginx.Metrics.{Metrics}
use ginx.Limit.TokenBucket.{Float}
use ginx.Gnet.Connection.{Seen, Outbox, send, SendError, start_reader, read_failed}
use ginx.Gnet.Connection.Sending.{send-ok, send-err}
use ginx.Gnet.Connection.Reading.{packets, all_counted, all_sent, AllTaken, start_reader-packets}

-- A call of `send`, with what it sees.
pub record Sending : Type 0 where
  pub seen : Seen
  pub nonblocking : Bool
  pub msg_id : ℕ
  pub payload : List ℕ

-- The identifier and the length of the payload fit their words.
abbrev pub IsSendable : Sending → Type 0
IsSendable x = (x.msg_id < 2 ^ 32) × (length x.payload < 2 ^ 32)

-- Its message.
abbrev pub message_of : Sending → Message
message_of x = new_msg_package x.msg_id x.payload

abbrev pub joined : List (List ℕ) → List ℕ
joined [] = []
joined (bytes ∷ rest) = bytes ++ joined rest

joined-append :
    (xs : List (List ℕ)) (bytes : List ℕ) → joined (xs ++ bytes ∷ []) ≡ joined xs ++ bytes
joined-append [] bytes = append-nil bytes
joined-append (x ∷ xs) bytes =
    ap (λ ys. x ++ ys) (joined-append xs bytes) ∙ sym (append_assoc x (joined xs) bytes)

abbrev with_sent : Result SendError (Unit {0}) → Message → List Message → List Message
with_sent (ok _) m ms = m ∷ ms
with_sent (err _) m ms = ms

module _ (global : Config) (d : DataPack) where
  -- One send after the other; with the messages whose send succeeded.
  unfoldable pub send_all : List Sending → Outbox → List Message × Outbox
  unfolding send
  send_all [] out = ([], out)
  send_all (x ∷ xs) out =
      let (result, out') = send global d x.seen x.nonblocking x.msg_id x.payload out in
      let (ms, out'') = send_all xs out' in (with_sent result (message_of x) ms, out'')

  abbrev sent : Sending → Outbox → Result SendError (Unit {0}) × Outbox
  sent x out = send global d x.seen x.nonblocking x.msg_id x.payload out

  -- What the sends left behind the queue are the packets of the messages that were sent.
  abbrev Behind : List Sending → Outbox → Type 0
  Behind xs out =
      (joined (send_all xs out).1.msg_chan ≡ joined out.msg_chan ++ packets (send_all xs out).0)
      × All IsWire (send_all xs out).0
      × All (Fits (limit_of global d)) (send_all xs out).0

  -- One send in front of others.
  send-Behind :
      (x : Sending) (xs : List Sending) (out : Outbox)
      → IsSendable x
      → Behind xs (sent x out).1
      → (q : Result SendError (Unit {0})) → (sent x out).0 ≡ q
      → (joined (send_all xs (sent x out).1).1.msg_chan
          ≡ joined out.msg_chan
            ++ packets (with_sent q (message_of x) (send_all xs (sent x out).1).0))
        × All IsWire (with_sent q (message_of x) (send_all xs (sent x out).1).0)
        × All (Fits (limit_of global d)) (with_sent q (message_of x) (send_all xs (sent x out).1).0)
  send-Behind x xs out h later (err e) f =
      let out' = (sent x out).1 in
      let kept =
        send-err global d x.seen x.nonblocking x.msg_id x.payload out e out'
          (ap (λ q. (q, out')) f) in
      (
        later.0 ∙ ap (λ (o : Outbox). joined o.msg_chan ++ packets (send_all xs out').0) kept,
        later.1,
        later.2,
      )
  send-Behind x xs out h later (ok done) f =
      let out' = (sent x out).1 in
      let ms = (send_all xs out').0 in
      let (bytes, packed, state, _, _, _, _, _) =
        send-ok global d x.seen x.nonblocking x.msg_id x.payload out out' (ap (λ q. (q, out')) f) in
      let (fits, same) = pack-ok_Fits global d (message_of x) bytes packed in
      (
        later.0
            ∙ ap (λ (o : Outbox). joined o.msg_chan ++ packets ms) state
            ∙ ap (λ bs. bs ++ packets ms) (joined-append out.msg_chan bytes)
            ∙ append_assoc (joined out.msg_chan) bytes (packets ms)
            ∙ ap (λ bs. joined out.msg_chan ++ (bs ++ packets ms)) same,
        (record { id_word = h.0; exact = omega (arith, h.1); len_word = omega arith }, later.1),
        (fits, later.2),
      )

  send_all-packets : (xs : List Sending) (out : Outbox) → All IsSendable xs → Behind xs out
  unfolding send_all
  send_all-packets [] out h = (sym (append-nil (joined out.msg_chan)), tt, tt)
  send_all-packets (x ∷ xs) out (h, hs) =
      send-Behind x xs out h (send_all-packets xs (sent x out).1 hs) (sent x out).0 refl

  -- Whatever sends are made one after the other, waiting or not, whatever each of them sees and however
  -- it ends: on a stream of what they left in an empty queue, with less than a header behind it and
  -- wherever it is cut, a reader of the same limit on the length, without a rate limit, hands on exactly
  -- the messages whose send succeeded, in their order, and ends with the stream, if its queue takes them
  -- all and it has a round more than there are messages. The identifiers and the lengths of the payloads
  -- fit 32 bits.
  pub start_reader-send_all :
      {F S Q : Type 0} (float : Float F) (send_to_task_queue : Message → S → Option Q × S)
      (clock : ℕ → ℕ) (xs : List Sending) (sender metrics : Metrics) (rest : List ℕ) (n fuel : ℕ)
      (r : Reader) (tasks : S)
      → All IsSendable xs
      → contents r
        ≡ joined (send_all xs (record { msg_chan = []; metrics = sender })).1.msg_chan ++ rest
      → length rest < 8
      → length (send_all xs (record { msg_chan = []; metrics = sender })).0 < fuel
      → AllTaken send_to_task_queue clock
          (send_all xs (record { msg_chan = []; metrics = sender })).0
          tasks
      → start_reader float send_to_task_queue clock global d fuel n r
          (record { limit = none; metrics = metrics; tasks = tasks })
        ≡ (
          read_failed (io (ended (length rest) r.ending)),
          record {
            limit = none;
            metrics =
                all_counted (send_all xs (record { msg_chan = []; metrics = sender })).0 metrics;
            tasks =
                all_sent send_to_task_queue clock
                  (send_all xs (record { msg_chan = []; metrics = sender })).0
                  tasks;
          },
        )
  start_reader-send_all float queue clock xs sender metrics rest n fuel r tasks h e short enough t =
      let out : Outbox = record { msg_chan = []; metrics = sender } in
      let (same, wire, fits) = send_all-packets xs out h in
      start_reader-packets queue clock float global d (send_all xs out).0 rest n fuel r metrics
        tasks wire fits (e ∙ ap (λ bs. bs ++ rest) same) short enough t
