-- ===== src/Gnet/DataPack.antt =====
-- gnet/datapack.go: the packet format, `uint32 length | uint32 id | payload`, little-endian.
pub mod Stream
pub mod Format
pub mod RoundTrip
pub mod Soundness
pub mod Truncation
mod Examples
use ginx.Prelude.{
  ℕ, ◌+◌, ◌%◌, ◌^◌, ◌<◌, Bool, ◌&&◌, not, List, [], ◌∷◌, ◌++◌, length, Option, none, some, ltb,
  ◌==◌, nat_eq, if◌then◌else◌, Result, ok, err, reject, or_fail, ◌>>=◌, ◌>>◌,
}
use ginx.Prelude.Bytes.{put_uint32, uint32_of}
use ginx.Gnet.Config.{Config, GlobalObj, default_config, effective_config}
use ginx.Gnet.Message.{Message, set_data}
use Stream.{Reader, IoError, eof, unexpected_eof, read_full}

pub data PackError : Type 0 where
  message_is_nil length_mismatch too_large_sent invalid_header too_large_received : PackError
  reader_is_nil : PackError
  io : IoError → PackError

-- A packer made by `NewDataPack` has no configuration and reads the global one.
pub record DataPack : Type 0 where
  pub config : Option Config

abbrev pub new_data_pack : DataPack
new_data_pack = record { config = none }

abbrev pub head_len : ℕ
head_len = 8

-- The write is refused unless the length field is the payload's, and within the limit; 0 is no limit.
unfoldable pub pack : Config → DataPack → Option Message → Result PackError (List ℕ)
pack global d none = err message_is_nil
pack global d (some msg) = do
  reject (not (msg.data_len == length msg.payload % 2 ^ 32)) length_mismatch
  let limit = (effective_config global d.config).max_packet_size
  reject (ltb 0 limit && ltb limit msg.data_len) too_large_sent
  ok (put_uint32 msg.data_len (put_uint32 msg.id msg.payload))

-- binary.Read of a `uint32`.
read_uint32 : List ℕ → Result PackError (ℕ × List ℕ)
read_uint32 (a ∷ b ∷ c ∷ d ∷ rest) = ok (uint32_of a b c d, rest)
read_uint32 [] = err (io eof)
read_uint32 _ = err (io unexpected_eof)

-- The payload is not read yet: the message has the length alone.
pub unpack : Config → DataPack → List ℕ → Result PackError Message
unfolding read_uint32
unpack global d bd = do
  reject (not (length bd % 2 ^ 32 == head_len)) invalid_header
  (data_len, rest) ← read_uint32 bd
  (id, _) ← read_uint32 rest
  let limit = (effective_config global d.config).max_packet_size
  reject (ltb 0 limit && ltb limit data_len) too_large_received
  ok (record { id = id; payload = []; data_len = data_len })

io_result {ℓ} : {A : Type ℓ} → Result IoError A → Result PackError A
io_result (ok a) = ok a
io_result (err e) = err (io e)

pub read_body : Message → Reader → Result PackError (Message × Reader)
unfolding io_result
read_body message reader = if message.data_len == 0 then ok (set_data message [], reader) else do
  (payload, rest) ← io_result (read_full reader message.data_len)
  ok (set_data message payload, rest)

-- One whole message, and the reader behind it. On an error the connection is given up.
pub read_message : Config → DataPack → Option Reader → Result PackError (Message × Reader)
unfolding io_result unpack read_body
read_message global d none = err reader_is_nil
read_message global d (some reader) = do
  (header, reader') ← io_result (read_full reader head_len)
  message ← unpack global d header
  read_body message reader'
