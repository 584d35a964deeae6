-- ===== src/Gnet/DataPack/Examples.antt =====
-- Packets at concrete bytes: runs of the code, and the theorems on them.
use ginx.Prelude.{ℕ, inr, List, [], ◌∷◌, ◌++◌, some, ok, err, ◌≡◌, refl, arith}
use ginx.Gnet.Config.{Config, default_config}
use ginx.Gnet.Message.{new_msg_package}
use ginx.Gnet.DataPack.{io, new_data_pack, pack, read_message, too_large_received}
use ginx.Gnet.DataPack.Stream.{Reader, contents, eof, read_full}
use ginx.Gnet.DataPack.Format.{Fits, pack-ok_Fits, packet}
use ginx.Gnet.DataPack.RoundTrip.{Reads, read_message-pack, IsWire}
use ginx.Gnet.DataPack.Soundness.{read_message-ok}
use ginx.Gnet.DataPack.Truncation.{read_message_in_payload}

abbrev hello : List ℕ
hello = 104 ∷ 105 ∷ []

abbrev hello_packet : List ℕ
hello_packet = 2 ∷ 0 ∷ 0 ∷ 0 ∷ 233 ∷ 3 ∷ 0 ∷ 0 ∷ 104 ∷ 105 ∷ []

pack-hello : pack default_config new_data_pack (some (new_msg_package 1001 hello)) ≡ ok hello_packet
unfolding pack
pack-hello = refl

-- The packet in two pieces, cut inside the header, with the next packet's first byte behind it.
abbrev cut_reader : Reader
cut_reader = record {
  chunks = (2 ∷ 0 ∷ 0 ∷ []) ∷ (0 ∷ 233 ∷ 3 ∷ 0 ∷ 0 ∷ 104 ∷ 105 ∷ 7 ∷ []) ∷ [];
  ending = eof;
}

read_hello :
    read_message default_config new_data_pack (some cut_reader)
    ≡ ok (new_msg_package 1001 hello, record { chunks = (7 ∷ []) ∷ []; ending = eof })
unfolding read_message read_full
read_hello = refl

small_limit : Config
small_limit = record default_config { max_packet_size = 1 }

too_large : read_message small_limit new_data_pack (some cut_reader) ≡ err too_large_received
unfolding read_message read_full small_limit
too_large = refl

read_message-pack_example :
    Reads default_config new_data_pack cut_reader (new_msg_package 1001 hello) (7 ∷ [])
read_message-pack_example =
    read_message-pack default_config new_data_pack 1001 hello hello_packet cut_reader (7 ∷ [])
      (omega arith) (omega arith) pack-hello refl

pack-ok_Fits_example :
    Fits 4096 (new_msg_package 1001 hello) × (hello_packet ≡ packet (new_msg_package 1001 hello))
pack-ok_Fits_example =
    pack-ok_Fits default_config new_data_pack (new_msg_package 1001 hello) hello_packet pack-hello

read_message-ok_example :
    IsWire (new_msg_package 1001 hello)
    × Fits 4096 (new_msg_package 1001 hello)
    × (contents cut_reader ≡ hello_packet ++ 7 ∷ [])
read_message-ok_example =
    read_message-ok default_config new_data_pack cut_reader _ (new_msg_package 1001 hello)
      (omega arith) read_hello

-- Cut right behind the header.
abbrev header_only : Reader
header_only = record { chunks = (2 ∷ 0 ∷ 0 ∷ 0 ∷ 233 ∷ 3 ∷ 0 ∷ 0 ∷ []) ∷ []; ending = eof }

read_message_in_payload_example :
    read_message default_config new_data_pack (some header_only) ≡ err (io eof)
read_message_in_payload_example =
    read_message_in_payload default_config new_data_pack (new_msg_package 1001 hello) header_only []
      (record { id_word = omega arith; exact = refl; len_word = omega arith })
      (record { exact = refl; within = inr (omega arith) }) refl (omega arith)
