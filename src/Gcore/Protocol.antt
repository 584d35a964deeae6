-- ===== src/Gcore/Protocol.antt =====
-- gcore/protocol.go: the game message envelope, 24 bytes of header and the payload.
pub mod RoundTrip
pub mod Rejects
mod Examples
use ginx.Prelude.{
  ℕ, ◌+◌, ◌*◌, ◌%◌, ◌^◌, ◌<◌, Bool, ◌&&◌, not, List, [], ◌∷◌, ◌++◌, length, Option, none, some, ltb,
  ◌==◌, nat_eq, if◌then◌else◌, Result, ok, err, reject, or_fail, ◌>>=◌, ◌>>◌, drop,
}
use ginx.Prelude.Bytes.{put_uint16, put_uint32, uint16_of, uint32_of}

abbrev pub game_protocol_magic : ℕ
game_protocol_magic = 0x584E4947

abbrev pub game_protocol_version : ℕ
game_protocol_version = 1

abbrev pub game_protocol_header_len : ℕ
game_protocol_header_len = 24

abbrev pub max_game_payload_size : ℕ
max_game_payload_size = 4 * 1024 * 1024

pub data ProtocolError : Type 0 where
  nil_message bad_version payload_too_large incomplete_header bad_magic bad_length : ProtocolError

pub record GameMessage : Type 0 where
  pub version : ℕ
  pub flags : ℕ
  pub message_id : ℕ
  pub sequence : ℕ
  pub player_id : ℕ
  pub room_id : ℕ
  pub payload : List ℕ

pub new_game_message : ℕ → ℕ → ℕ → ℕ → List ℕ → GameMessage
new_game_message message_id sequence player_id room_id payload = record {
  version = game_protocol_version;
  flags = 0;
  message_id = message_id;
  sequence = sequence;
  player_id = player_id;
  room_id = room_id;
  payload = payload;
}

-- Version 0 is replaced by the current one, in the caller's message.
abbrev pub with_version : GameMessage → GameMessage
with_version gm = if gm.version == 0 then record gm { version = game_protocol_version } else gm

abbrev pub encoding : GameMessage → List ℕ
encoding gm = put_uint32 game_protocol_magic (
    gm.version
    ∷ gm.flags
    ∷ put_uint16 gm.message_id (
        put_uint32 gm.sequence (
          put_uint32 gm.player_id
            (put_uint32 gm.room_id (put_uint32 (length gm.payload % 2 ^ 32) gm.payload)))))

encode_checked : GameMessage → Result ProtocolError (List ℕ)
encode_checked gm = do
  reject (not (gm.version == game_protocol_version)) bad_version
  reject (ltb max_game_payload_size (length gm.payload)) payload_too_large
  ok (encoding gm)

-- The message as `Encode` leaves it, and the bytes; nothing is left of a nil message.
pub encode : Option GameMessage → Option GameMessage × Result ProtocolError (List ℕ)
unfolding encode_checked
encode none = (none, err nil_message)
encode (some gm) = (some (with_version gm), encode_checked (with_version gm))

-- The fields behind the magic, once the header is known to be whole. `rest` is `data[24:]`.
decode_header : List ℕ → Result ProtocolError GameMessage
decode_header
      (m₀ ∷ m₁ ∷ m₂ ∷ m₃ ∷ v ∷ f ∷ i₀ ∷ i₁ ∷ s₀ ∷ s₁ ∷ s₂ ∷ s₃ ∷ p₀ ∷ p₁ ∷ p₂ ∷ p₃ ∷ r₀ ∷ r₁ ∷ r₂
        ∷ r₃ ∷ l₀ ∷ l₁ ∷ l₂ ∷ l₃ ∷ rest) =
    do
      reject (not (uint32_of m₀ m₁ m₂ m₃ == game_protocol_magic)) bad_magic
      reject (not (v == game_protocol_version)) bad_version
      let payload_len = uint32_of l₀ l₁ l₂ l₃
      reject (ltb max_game_payload_size payload_len) payload_too_large
      reject (not (game_protocol_header_len + payload_len == 24 + length rest)) bad_length
      ok (record {
        version = v;
        flags = f;
        message_id = uint16_of i₀ i₁;
        sequence = uint32_of s₀ s₁ s₂ s₃;
        player_id = uint32_of p₀ p₁ p₂ p₃;
        room_id = uint32_of r₀ r₁ r₂ r₃;
        payload = rest;
      })
decode_header _ = err incomplete_header

pub decode_game_message : List ℕ → Result ProtocolError GameMessage
unfolding decode_header
decode_game_message bytes = do
  reject (ltb (length bytes) game_protocol_header_len) incomplete_header
  decode_header bytes
