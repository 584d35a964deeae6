-- ===== src/Gnet/DataPack/Format.antt =====
-- What `pack` writes and what it refuses.
use ginx.Prelude.{ℕ, ◌%◌, ◌^◌, ◌≤◌, List, length, some, ok, ◌≡◌, ◌⊎◌, arith}
use ginx.Prelude.Bytes.{put_uint32}
use ginx.Gnet.Config.{Config, effective_config}
use ginx.Gnet.Message.{Message}
use ginx.Gnet.DataPack.{DataPack, pack}

-- The packet of a message: eight bytes of header and the payload.
abbrev pub packet : Message → List ℕ
packet m = put_uint32 m.data_len (put_uint32 m.id m.payload)

abbrev pub limit_of : Config → DataPack → ℕ
limit_of global d = (effective_config global d.config).max_packet_size

-- The length field is the payload's and a `uint32`, and within the limit, if there is one.
pub record Fits (limit : ℕ) (m : Message) : Type 0 where
  pub exact : m.data_len ≡ length m.payload % 2 ^ 32
  pub within : (limit ≡ 0) ⊎ (m.data_len ≤ limit)

-- A message whose length field is its payload's, within the limit, is packed as its packet: the
-- length and the identifier in four bytes each, least first, and the payload.
pub pack-Fits :
    (global : Config) (d : DataPack) (m : Message)
    → Fits (limit_of global d) m
    → pack global d (some m) ≡ ok (packet m)
unfolding pack
pack-Fits global d m v = ground arith

-- Bytes that `pack` gives are the packet of the message, whose length field is then its
-- payload's and within the limit.
pub pack-ok_Fits :
    (global : Config) (d : DataPack) (m : Message) (bs : List ℕ)
    → pack global d (some m) ≡ ok bs
    → Fits (limit_of global d) m × (bs ≡ packet m)
unfolding pack
pack-ok_Fits global d m bs h = ground arith
