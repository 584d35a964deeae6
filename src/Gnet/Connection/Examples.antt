-- ===== src/Gnet/Connection/Examples.antt =====
-- A writer that takes two bytes at a time, a send, and a loop over two messages.
use ginx.Prelude.{
  ◌/◌, ◌^◌, ◌+◌, ◌-◌, ◌*◌, ltb, ℕ, ◌≤◌, ◌≡◌, refl, sym, ap, inr, true, false, Option, none, List,
  [], ◌∷◌, ◌++◌, arith, length, take, ok, err,
}
use ginx.Gnet.Config.{default_config}
use ginx.Gnet.Message.{Message, new_msg_package}
use ginx.Gnet.DataPack.{new_data_pack, pack, io}
use ginx.Gnet.DataPack.Stream.{Reader, eof, unexpected_eof}
use ginx.Metrics.{new_metrics, add_bytes_out}
use ginx.Limit.TokenBucket.{Float}
use ginx.Gnet.Connection.Delivery.{Sending, send_all, start_reader-send_all}
use ginx.Gnet.DataPack.Stream.{ended}
use ginx.Gnet.Connection.{
  Writer, write_full, write_rounds, Seen, Outbox, send, sent_bytes, queue_bytes, got_it,
  read_failed, start_reader, send_queue_full,
}
use ginx.Gnet.Connection.Writing.{Writes, Ends, write_full-Ends}
use ginx.Gnet.Connection.Reading.{all_counted, all_sent, start_reader-packets}

-- What was written is what the writer is.
abbrev by_twos : Writer (List ℕ) ℕ
by_twos = record { write = λ bytes w. (length (take 2 bytes), none, w ++ take 2 bytes) }

length-take_two : (bytes : List ℕ) → length (take 2 bytes) ≤ length bytes
length-take_two [] = omega arith
length-take_two (a ∷ []) = omega arith
length-take_two (a ∷ b ∷ bs) = omega arith

take-length-take_two : (bytes : List ℕ) → take (length (take 2 bytes)) bytes ≡ take 2 bytes
take-length-take_two [] = refl
take-length-take_two (a ∷ []) = refl
take-length-take_two (a ∷ b ∷ bs) = refl

by_twos-Writes : Writes by_twos (λ w. w)
by_twos-Writes = record {
  within = λ bytes w. length-take_two bytes;
  appends = λ bytes w. ap (λ xs. w ++ xs) (sym (take-length-take_two bytes));
}

three_written : write_full by_twos (1 ∷ 2 ∷ 3 ∷ []) (9 ∷ []) ≡ (ok tt, 9 ∷ 1 ∷ 2 ∷ 3 ∷ [])
unfolding write_full write_rounds
three_written = refl

write_full-Ends_example :
    Ends by_twos
      (λ w. w)
      by_twos-Writes
      (1 ∷ 2 ∷ 3 ∷ [])
      (9 ∷ [])
      (write_full by_twos (1 ∷ 2 ∷ 3 ∷ []) (9 ∷ []))
write_full-Ends_example = write_full-Ends by_twos (λ w. w) by_twos-Writes (1 ∷ 2 ∷ 3 ∷ []) (9 ∷ [])

abbrev calm : Seen
calm = record {
  closed_first = false;
  ctx_first = none;
  gate_free = true;
  gate = got_it;
  closed_second = false;
  ctx_second = none;
  ctx_third = none;
  has_room = true;
  room = got_it;
}

abbrev empty_box : Outbox
empty_box = record { msg_chan = []; metrics = new_metrics }

abbrev hello_packet : List ℕ
hello_packet = 2 ∷ 0 ∷ 0 ∷ 0 ∷ 233 ∷ 3 ∷ 0 ∷ 0 ∷ 104 ∷ 105 ∷ []

abbrev hello : List ℕ
hello = 104 ∷ 105 ∷ []

abbrev one_box : Outbox
one_box = record { msg_chan = hello_packet ∷ []; metrics = add_bytes_out new_metrics 10 }

send-hello : send default_config new_data_pack calm true 1001 hello empty_box ≡ (ok tt, one_box)
unfolding send sent_bytes queue_bytes pack
send-hello = refl

abbrev crowded : Seen
crowded = record calm { has_room = false }

send-crowded :
    send default_config new_data_pack crowded true 1001 hello empty_box
    ≡ (err send_queue_full, empty_box)
unfolding send sent_bytes queue_bytes pack
send-crowded = refl

-- Two packets and three bytes, cut in the middle of the first.
abbrev stream : Reader
stream = record {
  chunks =
      (2 ∷ 0 ∷ 0 ∷ [])
      ∷ (0 ∷ 233 ∷ 3 ∷ 0 ∷ 0 ∷ 104 ∷ 105 ∷ 0 ∷ 0 ∷ 0 ∷ 0 ∷ 7 ∷ 0 ∷ 0 ∷ 0 ∷ 1 ∷ 1 ∷ 1 ∷ [])
      ∷ [];
  ending = eof;
}

abbrev said : List Message
said = new_msg_package 1001 hello ∷ new_msg_package 7 [] ∷ []

-- Whole numbers in the place of `float64`.
abbrev whole : Float ℕ
whole = record {
  of_int = λ n. n;
  seconds = λ n. n / 10 ^ 9;
  add = λ a b. a + b;
  sub = λ a b. a - b;
  mul = λ a b. a * b;
  lt = ltb;
}

-- A queue that takes everything and notes the identifiers.
abbrev taken : Message → List ℕ → Option ℕ × List ℕ
taken m ids = (none, ids ++ m.id ∷ [])

start_reader-packets_example :
    start_reader whole taken
      (λ n. n)
      default_config
      new_data_pack
      3
      0
      stream
      (record { limit = none; metrics = new_metrics; tasks = [] })
    ≡ (
      read_failed (io unexpected_eof),
      record { limit = none; metrics = all_counted said new_metrics; tasks = 1001 ∷ 7 ∷ [] },
    )
start_reader-packets_example =
    start_reader-packets taken (λ n. n) whole default_config new_data_pack said (1 ∷ 1 ∷ 1 ∷ []) 0 3
      stream new_metrics []
      (
        record { id_word = omega arith; exact = refl; len_word = omega arith },
        (record { id_word = omega arith; exact = refl; len_word = omega arith }, tt),
      )
      (
        record { exact = refl; within = inr (omega arith) },
        (record { exact = refl; within = inr (omega arith) }, tt),
      )
      refl (omega arith) (omega arith) (refl, (refl, tt))

-- The middle one finds no room in the queue.
abbrev spoken : List Sending
spoken =
    record { seen = calm; nonblocking = true; msg_id = 1001; payload = hello }
    ∷ record { seen = crowded; nonblocking = true; msg_id = 5; payload = hello }
    ∷ record { seen = calm; nonblocking = false; msg_id = 7; payload = [] }
    ∷ []

spoken_sent : (send_all default_config new_data_pack spoken empty_box).0 ≡ said
unfolding send_all send sent_bytes queue_bytes pack
spoken_sent = refl

start_reader-send_all_example :
    start_reader whole taken
      (λ n. n)
      default_config
      new_data_pack
      3
      0
      stream
      (record { limit = none; metrics = new_metrics; tasks = [] })
    ≡ (
      read_failed (io (ended 3 eof)),
      record {
        limit = none;
        metrics =
            all_counted (send_all default_config new_data_pack spoken empty_box).0 new_metrics;
        tasks =
            all_sent taken (λ n. n) (send_all default_config new_data_pack spoken empty_box).0 [];
      },
    )
unfolding send_all send sent_bytes queue_bytes pack
start_reader-send_all_example =
    start_reader-send_all default_config new_data_pack whole taken (λ n. n) spoken new_metrics
      new_metrics (1 ∷ 1 ∷ 1 ∷ []) 0 3 stream []
      ((omega arith, omega arith), ((omega arith, omega arith), ((omega arith, omega arith), tt)))
      refl (omega arith) (omega arith) (refl, (refl, tt))
