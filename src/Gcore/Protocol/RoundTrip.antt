-- ===== src/Gcore/Protocol/RoundTrip.antt =====
-- Encode and DecodeGameMessage undo one another.
use ginx.Prelude.{ℕ, ◌%◌, ◌^◌, ◌≤◌, ◌<◌, List, [], ◌∷◌, length, some, ok, err, ◌≡◌, arith}
use ginx.Prelude.Bytes.{
  IsBytes, put_uint32, put_uint16, uint32_of-put, uint16_of-put, put-uint32_of, put-uint16_of,
  uint32_of-lt, uint16_of-lt, uint32_of, uint16_of,
}
use native.Mathlib.Decide.{dec_lt}
use ginx.Gcore.Protocol.{
  GameMessage, encode, encoding, with_version, decode_game_message, incomplete_header,
  max_game_payload_size, game_protocol_magic,
}

-- The fields have their Go types' ranges.
pub record IsTyped (gm : GameMessage) : Type 0 where
  pub version_byte : gm.version < 2 ^ 8
  pub flags_byte : gm.flags < 2 ^ 8
  pub id_word : gm.message_id < 2 ^ 16
  pub sequence_word : gm.sequence < 2 ^ 32
  pub player_word : gm.player_id < 2 ^ 32
  pub room_word : gm.room_id < 2 ^ 32

decode-encoding :
    (gm : GameMessage)
    → IsTyped gm
    → gm.version ≡ 1
    → length gm.payload ≤ max_game_payload_size
    → decode_game_message (encoding gm) ≡ ok gm
unfolding decode_game_message
decode-encoding gm t v l = ground (
  arith,
  uint32_of-put (length gm.payload % 2 ^ 32),
  uint16_of-put gm.message_id t.id_word,
  uint32_of-put gm.sequence t.sequence_word,
  uint32_of-put gm.player_id t.player_word,
  uint32_of-put gm.room_id t.room_word,
)

encode-ok :
    (gm : GameMessage) (bs : List ℕ)
    → (encode (some gm)).1 ≡ ok bs
    → ((with_version gm).version ≡ 1)
      × (length gm.payload ≤ max_game_payload_size)
      × (bs ≡ encoding (with_version gm))
unfolding encode
encode-ok gm bs h = ground arith

-- The bytes that `encode` gives for a message whose fields fit their words decode to that
-- message, with the current version where it had none.
pub decode-encode :
    (gm : GameMessage) (bs : List ℕ)
    → IsTyped gm
    → (encode (some gm)).1 ≡ ok bs
    → decode_game_message bs ≡ ok (with_version gm)
decode-encode gm bs t h =
    let (v, l, e) = encode-ok gm bs h in ground (arith, v, l, e, decode-encoding (with_version gm))

pub decode_short : (bs : List ℕ) → length bs < 24 → decode_game_message bs ≡ err incomplete_header
unfolding decode_game_message
decode_short bs h = ground arith

-- The eight fields of a whole header, and the bytes behind them.
abbrev layout : ℕ → GameMessage → ℕ → List ℕ
layout magic gm len = put_uint32 magic (
    gm.version
    ∷ gm.flags
    ∷ put_uint16 gm.message_id (
        put_uint32 gm.sequence
          (put_uint32 gm.player_id (put_uint32 gm.room_id (put_uint32 len gm.payload)))))

record HasLayout (bs : List ℕ) : Type 0 where
  magic : ℕ
  gm : GameMessage
  len : ℕ
  typed : IsTyped gm
  magic_word : magic < 2 ^ 32
  len_word : len < 2 ^ 32
  same : bs ≡ layout magic gm len

layout_of : (bs : List ℕ) → 24 ≤ length bs → IsBytes bs → HasLayout bs
layout_of
      (m₀ ∷ m₁ ∷ m₂ ∷ m₃ ∷ v ∷ f ∷ i₀ ∷ i₁ ∷ s₀ ∷ s₁ ∷ s₂ ∷ s₃ ∷ p₀ ∷ p₁ ∷ p₂ ∷ p₃ ∷ r₀ ∷ r₁ ∷ r₂
        ∷ r₃ ∷ l₀ ∷ l₁ ∷ l₂ ∷ l₃ ∷ rest)
      h b =
    let (
      b0,
      (
        b1,
        (
          b2,
          (
            b3,
            (
              b4,
              (
                b5,
                (
                  b6,
                  (
                    b7,
                    (
                      b8,
                      (
                        b9,
                        (
                          b10,
                          (
                            b11,
                            (
                              b12,
                              (
                                b13,
                                (
                                  b14,
                                  (b15, (b16, (b17, (b18, (b19, (b20, (b21, (b22, (b23, bs))))))))),
                                ),
                              ),
                            ),
                          ),
                        ),
                      ),
                    ),
                  ),
                ),
              ),
            ),
          ),
        ),
      ),
    ) =
      b in
    record {
      magic = uint32_of m₀ m₁ m₂ m₃;
      gm = record {
        version = v;
        flags = f;
        message_id = uint16_of i₀ i₁;
        sequence = uint32_of s₀ s₁ s₂ s₃;
        player_id = uint32_of p₀ p₁ p₂ p₃;
        room_id = uint32_of r₀ r₁ r₂ r₃;
        payload = rest;
      };
      len = uint32_of l₀ l₁ l₂ l₃;
      typed = record {
        version_byte = b4;
        flags_byte = b5;
        id_word = uint16_of-lt i₀ i₁ b6 b7;
        sequence_word = uint32_of-lt s₀ s₁ s₂ s₃ b8 b9 b10 b11;
        player_word = uint32_of-lt p₀ p₁ p₂ p₃ b12 b13 b14 b15;
        room_word = uint32_of-lt r₀ r₁ r₂ r₃ b16 b17 b18 b19;
      };
      magic_word = uint32_of-lt m₀ m₁ m₂ m₃ b0 b1 b2 b3;
      len_word = uint32_of-lt l₀ l₁ l₂ l₃ b20 b21 b22 b23;
      same = cc (
        put-uint32_of m₀ m₁ m₂ m₃ [] b0 b1 b2 b3,
        put-uint16_of i₀ i₁ [] b6 b7,
        put-uint32_of s₀ s₁ s₂ s₃ [] b8 b9 b10 b11,
        put-uint32_of p₀ p₁ p₂ p₃ [] b12 b13 b14 b15,
        put-uint32_of r₀ r₁ r₂ r₃ [] b16 b17 b18 b19,
        put-uint32_of l₀ l₁ l₂ l₃ [] b20 b21 b22 b23,
      );
    }
layout_of _ h b = absurd (omega arith)

decode-layout :
    (magic len : ℕ) (gm gm' : GameMessage)
    → IsTyped gm
    → magic < 2 ^ 32
    → len < 2 ^ 32
    → decode_game_message (layout magic gm len) ≡ ok gm'
    → (gm' ≡ gm)
      × (gm.version ≡ 1)
      × (magic ≡ game_protocol_magic)
      × (len ≡ length gm.payload)
      × (len ≤ max_game_payload_size)
unfolding decode_game_message
decode-layout magic len gm gm' t hm hl h = ground (
  arith,
  uint32_of-put len hl,
  uint32_of-put magic hm,
  uint16_of-put gm.message_id t.id_word,
  uint32_of-put gm.sequence t.sequence_word,
  uint32_of-put gm.player_id t.player_word,
  uint32_of-put gm.room_id t.room_word,
)

-- Bytes that decode to a message are what `encode` gives for it, and it leaves the message as it
-- is.
pub encode-decode :
    (bs : List ℕ) (gm : GameMessage)
    → IsBytes bs
    → decode_game_message bs ≡ ok gm
    → encode (some gm) ≡ (some gm, ok bs)
unfolding encode
encode-decode bs gm b h = elim (dec_lt (length bs) 24) [
  | yes short ↦ absurd (ground (arith, h, decode_short bs short))
  | no whole ↦
      let lay = layout_of bs (omega arith) b in
      let (e, v, m, l, small) =
        decode-layout lay.magic lay.len lay.gm gm lay.typed lay.magic_word lay.len_word
          (ground (arith, h, lay.same)) in
      ground (arith, e, v, m, l, small, lay.same)
]
