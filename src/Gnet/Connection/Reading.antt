-- ===== src/Gnet/Connection/Reading.antt =====
-- The loop hands on exactly the messages of the stream.
use ginx.Prelude.{
  ℕ, zero, suc, ◌<◌, ◌≡◌, ap, subst, ◌∙◌, Option, none, some, List, [], ◌∷◌, ◌++◌, arith, length,
  All, append_assoc, ok,
}
use ginx.Gnet.Config.{Config}
use ginx.Gnet.Message.{Message}
use ginx.Gnet.DataPack.{DataPack, io, read_message}
use ginx.Gnet.DataPack.Stream.{Reader, contents, ended}
use ginx.Gnet.DataPack.Format.{Fits, limit_of, packet}
use ginx.Gnet.DataPack.RoundTrip.{IsWire, read_message-packet}
use ginx.Gnet.DataPack.Truncation.{read_message_in_header}
use ginx.Metrics.{Metrics, add_bytes_in, inc_messages}
use ginx.Limit.TokenBucket.{Float}
use ginx.Gnet.Connection.{ReaderState, read_failed, start_reader, dispatch, allowed}

abbrev pub packets : List Message → List ℕ
packets [] = []
packets (m ∷ ms) = packet m ++ packets ms

-- The collector after these messages.
abbrev pub all_counted : List Message → Metrics → Metrics
all_counted [] metrics = metrics
all_counted (m ∷ ms) metrics = all_counted ms (add_bytes_in (inc_messages metrics) m.data_len)

module _ {S Q : Type 0} (send_to_task_queue : Message → S → Option Q × S) (clock : ℕ → ℕ) where
  -- The tasks after these messages were handed on, one after another.
  abbrev pub all_sent : List Message → S → S
  all_sent [] tasks = tasks
  all_sent (m ∷ ms) tasks = all_sent ms (send_to_task_queue m tasks).1

  -- None of them is refused.
  abbrev pub AllTaken : List Message → S → Type 0
  AllTaken [] tasks = Unit {0}
  AllTaken (m ∷ ms) tasks =
      ((send_to_task_queue m tasks).0 ≡ none) × AllTaken ms (send_to_task_queue m tasks).1

  module _ {F : Type 0} (float : Float F) (global : Config) (d : DataPack) where
    reader_ends :
        (fuel n : ℕ) (r : Reader) (s : ReaderState F S)
        → length (contents r) < 8
        → start_reader float send_to_task_queue clock global d (suc fuel) n r s
          ≡ (read_failed (io (ended (length (contents r)) r.ending)), s)
    unfolding start_reader
    reader_ends fuel n r s h = ground (arith, read_message_in_header global d r h)

    round :
        (m : Message) (fuel n : ℕ) (r r' : Reader) (metrics : Metrics) (tasks : S)
        → read_message global d (some r) ≡ ok (m, r')
        → (send_to_task_queue m tasks).0 ≡ none
        → start_reader float send_to_task_queue clock global d
            (suc fuel)
            n
            r
            (record { limit = none; metrics = metrics; tasks = tasks })
          ≡ start_reader float send_to_task_queue clock global d fuel (suc n) r' (record {
            limit = none;
            metrics = add_bytes_in (inc_messages metrics) m.data_len;
            tasks = (send_to_task_queue m tasks).1;
          })
    unfolding start_reader dispatch allowed
    round m fuel n r r' metrics tasks read taken = ground (arith, read, taken)

    -- Without a rate limit, on a stream that holds the packets of some messages, which fit their
    -- words and the limit, and then less than a header, wherever it is cut: the loop hands on these
    -- messages in order and nothing else, counts them, and ends with the end of the stream, if the
    -- queue takes them all. One round more than there are messages is enough.
    pub start_reader-packets :
        (ms : List Message) (rest : List ℕ) (n fuel : ℕ) (r : Reader) (metrics : Metrics)
        (tasks : S)
        → All IsWire ms
        → All (Fits (limit_of global d)) ms
        → contents r ≡ packets ms ++ rest
        → length rest < 8
        → length ms < fuel
        → AllTaken ms tasks
        → start_reader float send_to_task_queue clock global d fuel n r
            (record { limit = none; metrics = metrics; tasks = tasks })
          ≡ (
            read_failed (io (ended (length rest) r.ending)),
            record { limit = none; metrics = all_counted ms metrics; tasks = all_sent ms tasks },
          )
    start_reader-packets ms rest n zero r metrics tasks w f e short h t = absurd (omega arith)
    start_reader-packets [] rest n (suc fuel) r metrics tasks w f e short h t =
        subst
          (λ bs.
            start_reader float send_to_task_queue clock global d (suc fuel) n r
              (record { limit = none; metrics = metrics; tasks = tasks })
            ≡ (
              read_failed (io (ended (length bs) r.ending)),
              record { limit = none; metrics = metrics; tasks = tasks },
            ))
          e (reader_ends fuel n r _ (ground (arith, e)))
    start_reader-packets (m ∷ ms) rest n (suc fuel) r metrics tasks w f e short h t =
        let (r', read, left, same) =
          read_message-packet global d m r (packets ms ++ rest) w.0 f.0
            (e ∙ append_assoc (packet m) (packets ms) rest) in
        let later =
          start_reader-packets ms rest (suc n) fuel r'
            (add_bytes_in (inc_messages metrics) m.data_len) (send_to_task_queue m tasks).1 w.1 f.1
            left short (omega arith) t.1 in
        round m fuel n r r' metrics tasks read t.0
        ∙ later
        ∙ ap
            (λ x. (
              read_failed (io (ended (length rest) x)),
              record {
                limit = none;
                metrics = all_counted (m ∷ ms) metrics;
                tasks = all_sent (m ∷ ms) tasks;
              },
            ))
            same
