-- ===== src/Gnet/DataPack/Truncation.antt =====
-- A stream that ends inside a packet.
use ginx.Prelude.{ℕ, ◌<◌, List, [], ◌++◌, length, some, err, ◌≡◌, arith, ap}
use ginx.Gnet.Config.{Config}
use ginx.Gnet.Message.{Message}
use ginx.Gnet.DataPack.{DataPack, read_message, read_body, io}
use ginx.Gnet.DataPack.Stream.{Reader, contents, ended, read_full_short}
use ginx.Gnet.DataPack.Format.{limit_of, Fits}
use ginx.Gnet.DataPack.RoundTrip.{header, IsWire, read_message-header}

-- Inside the header the error is the stream's own end if no byte came, and an unexpected end
-- otherwise.
pub read_message_in_header :
    (global : Config) (d : DataPack) (r : Reader)
    → length (contents r) < 8
    → read_message global d (some r) ≡ err (io (ended (length (contents r)) r.ending))
unfolding read_message
read_message_in_header global d r h = ground (arith, read_full_short r 8 h)

read_body_short :
    (m : Message) (r : Reader)
    → length (contents r) < m.data_len
    → read_body m r ≡ err (io (ended (length (contents r)) r.ending))
unfolding read_body
read_body_short m r h = ground (arith, read_full_short r m.data_len h)

-- A stream that holds the header of a message within the limit and less than its payload gives
-- an error: the stream's own, which a plain end of file becomes an unexpected one only if a byte
-- of the payload was read. Cut right behind the header it ends with the plain end of file.
pub read_message_in_payload :
    (global : Config) (d : DataPack) (m : Message) (r : Reader) (front : List ℕ)
    → IsWire m
    → Fits (limit_of global d) m
    → contents r ≡ header m.data_len m.id ++ front
    → length front < length m.payload
    → read_message global d (some r) ≡ err (io (ended (length front) r.ending))
read_message_in_payload global d m r front w v e h =
    let (s, left, same, step) = read_message-header global d m r front w.id_word w.len_word e in
    let m' : Message = record m { payload = [] } in
    let body = read_body_short m' s (omega (arith, w, ap length left)) in
    ground (arith, step, v, body, left, same)
