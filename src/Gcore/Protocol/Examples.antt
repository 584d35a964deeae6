-- ===== src/Gcore/Protocol/Examples.antt =====
-- Game messages at concrete bytes.
use ginx.Prelude.{ℕ, List, [], ◌∷◌, some, ok, ◌≡◌, refl, arith}
use ginx.Gcore.Protocol.{GameMessage, encode, decode_game_message, encoding}
use ginx.Gcore.Protocol.RoundTrip.{IsTyped, decode-encode, encode-decode}

abbrev heartbeat : GameMessage
heartbeat = record {
  version = 0;
  flags = 1;
  message_id = 9001;
  sequence = 7;
  player_id = 70000;
  room_id = 3;
  payload = 5 ∷ [];
}

abbrev wire : List ℕ
wire = encoding (record heartbeat { version = 1 })

encode-heartbeat : (encode (some heartbeat)).1 ≡ ok wire
unfolding encode
encode-heartbeat = refl

heartbeat-IsTyped : IsTyped heartbeat
heartbeat-IsTyped = omega arith

decode_wire : decode_game_message wire ≡ ok (record heartbeat { version = 1 })
decode_wire = decode-encode heartbeat wire heartbeat-IsTyped encode-heartbeat

decode-encode_example : decode_game_message wire ≡ ok (record heartbeat { version = 1 })
decode-encode_example = decode-encode heartbeat wire heartbeat-IsTyped encode-heartbeat

encode-decode_example :
    encode (some (record heartbeat { version = 1 }))
    ≡ (some (record heartbeat { version = 1 }), ok wire)
encode-decode_example =
    encode-decode wire (record heartbeat { version = 1 }) (omega arith) decode_wire

-- The first two bytes, and the other twenty-three.
abbrev front : List ℕ
front = 71 ∷ 73 ∷ []

abbrev back : List ℕ
back =
    88 ∷ 1 ∷ 1 ∷ 41 ∷ 35 ∷ 7 ∷ 0 ∷ 0 ∷ 0 ∷ 112 ∷ 17 ∷ 1 ∷ 0 ∷ 3 ∷ 0 ∷ 0 ∷ 0 ∷ 1 ∷ 0 ∷ 0 ∷ 0 ∷ 5 ∷ []
