-- ===== src/Gnet/DataPack/RoundTrip.antt =====
-- A packet read back from a stream that may be cut anywhere.
use ginx.Prelude.{
  ℕ, ◌^◌, ◌<◌, ◌&&◌, List, [], ◌++◌, length, some, ltb, ◌==◌, nat_eq, ok, err, ◌≡◌, refl, inl, inr,
  arith, if◌then◌else◌, Bool-cases, length-eq_zero, ◌∙◌,
}
use ginx.Prelude.Bytes.{put_uint32, uint32_of-put}
use ginx.Gnet.Config.{Config}
use ginx.Gnet.Message.{Message, new_msg_package}
use ginx.Gnet.DataPack.{DataPack, too_large_received, pack, unpack, read_message, read_body}
use ginx.Gnet.DataPack.Stream.{Reader, contents, read_full_exact}
use ginx.Gnet.DataPack.Format.{packet, limit_of, Fits, pack-ok_Fits}

abbrev pub header : ℕ → ℕ → List ℕ
header len id = put_uint32 len (put_uint32 id [])

unpack-header :
    (global : Config) (d : DataPack) (len id : ℕ)
    → len < 2 ^ 32
    → id < 2 ^ 32
    → unpack global d (header len id) ≡ (
        if ltb 0 (limit_of global d) && ltb (limit_of global d) len
        then err too_large_received
        else ok (record { id = id; payload = []; data_len = len }))
unfolding unpack
unpack-header global d len id hl hi = ground (arith, uint32_of-put len hl, uint32_of-put id hi)

-- A message whose fields fit their words.
pub record IsWire (m : Message) : Type 0 where
  pub id_word : m.id < 2 ^ 32
  pub exact : m.data_len ≡ length m.payload
  pub len_word : m.data_len < 2 ^ 32

abbrev pub Reads : Config → DataPack → Reader → Message → List ℕ → Type 0
Reads global d r m rest =
    (s : Reader) × (read_message global d (some r) ≡ ok (m, s))
    × (contents s ≡ rest)
    × (s.ending ≡ r.ending)

read_body-payload :
    (m : Message) (r : Reader) (rest : List ℕ)
    → m.data_len ≡ length m.payload
    → contents r ≡ m.payload ++ rest
    → (s : Reader) × (read_body (record { id = m.id; payload = []; data_len = m.data_len }) r
        ≡ ok (m, s))
      × (contents s ≡ rest)
      × (s.ending ≡ r.ending)
unfolding read_body
read_body-payload m r rest exact e = elim (Bool-cases (m.data_len == 0)) [
  | inl zero_len ↦
      let none_left : m.payload ≡ [] = length-eq_zero m.payload (ground arith) in
      (r, ground (arith, zero_len, none_left), ground (arith, e, none_left), refl)
  | inr some_left ↦
      let (s, read, left, same) = read_full_exact r m.data_len m.payload rest (omega arith) e in
      (s, ground (arith, some_left, read), left, same)
]

pub read_message-header :
    (global : Config) (d : DataPack) (m : Message) (r : Reader) (rest : List ℕ)
    → m.id < 2 ^ 32
    → m.data_len < 2 ^ 32
    → contents r ≡ header m.data_len m.id ++ rest
    → (s : Reader) × (contents s ≡ rest)
      × (s.ending ≡ r.ending)
      × (read_message global d (some r) ≡ (
          if ltb 0 (limit_of global d) && ltb (limit_of global d) m.data_len
          then err too_large_received
          else read_body (record { id = m.id; payload = []; data_len = m.data_len }) s))
unfolding read_message
read_message-header global d m r rest hi hl e =
    let (s, read, left, same) = read_full_exact r 8 (header m.data_len m.id) rest refl e in
    (s, left, same, ground (arith, read, unpack-header global d m.data_len m.id hl hi))

-- A packet that the packer accepts is read back as the message it was made of, wherever the
-- stream is cut, and what follows stays in the reader.
pub read_message-packet :
    (global : Config) (d : DataPack) (m : Message) (r : Reader) (rest : List ℕ)
    → IsWire m
    → Fits (limit_of global d) m
    → contents r ≡ packet m ++ rest
    → Reads global d r m rest
read_message-packet global d m r rest w v e =
    let (s, left, same, step) =
      read_message-header global d m r (m.payload ++ rest) w.id_word w.len_word e in
    let (t, body, left', same') = read_body-payload m s rest w.exact left in
    (t, ground (arith, step, body, v), left', same' ∙ same)

-- For an identifier and a payload length below 2^32: if `pack` gives bytes for the message and
-- the stream holds these bytes and then others, `read_message` gives the message back, wherever
-- the stream is cut, and the reader holds the others.
pub read_message-pack :
    (global : Config) (d : DataPack) (id : ℕ) (payload bs : List ℕ) (r : Reader) (rest : List ℕ)
    → id < 2 ^ 32
    → length payload < 2 ^ 32
    → pack global d (some (new_msg_package id payload)) ≡ ok bs
    → contents r ≡ bs ++ rest
    → Reads global d r (new_msg_package id payload) rest
read_message-pack global d id payload bs r rest hi hl h e =
    let m : Message = new_msg_package id payload in
    let (v, same) = pack-ok_Fits global d m bs h in
    read_message-packet global d m r rest
      (record { id_word = hi; exact = omega arith; len_word = omega arith }) v
      (ground (arith, same, e))
