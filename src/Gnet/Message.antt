-- ===== src/Gnet/Message.antt =====
-- gnet/message.go
use ginx.Prelude.{ℕ, ◌%◌, ◌^◌, List, length}

pub record Message : Type 0 where
  pub id : ℕ
  pub payload : List ℕ
  pub data_len : ℕ

-- `uint32(len(data))` wraps.
abbrev pub new_msg_package : ℕ → List ℕ → Message
new_msg_package id payload = record {
  id = id;
  payload = payload;
  data_len = length payload % 2 ^ 32;
}

abbrev pub set_data : Message → List ℕ → Message
set_data m payload = record m { payload = payload }
