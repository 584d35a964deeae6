-- ===== src/Gnet/DataPack/Soundness.antt =====
-- Whatever is read from a stream of bytes was a packet that the packer would write.
use ginx.Prelude.{
  ℕ, ◌^◌, ◌≤◌, ◌<◌, List, [], ◌++◌, length, some, ok, ◌≡◌, ◌≢◌, arith, take-append-drop, ap,
}
use ginx.Prelude.Bytes.{IsBytes, split_word}
use ginx.Gnet.Config.{Config}
use ginx.Gnet.Message.{Message}
use ginx.Gnet.DataPack.{DataPack, read_message, read_body}
use ginx.Gnet.DataPack.Stream.{
  Reader, contents, read_full_enough, read_full_short, length-take_within,
}
use ginx.Gnet.DataPack.Format.{packet, limit_of, Fits}
use ginx.Gnet.DataPack.RoundTrip.{header, IsWire, read_message-header}
use native.Mathlib.Decide.{dec_lt}

read_body-ok :
    (id len : ℕ) (r s : Reader) (m : Message)
    → read_body (record { id = id; payload = []; data_len = len }) r ≡ ok (m, s)
    → (m.id ≡ id)
      × (m.data_len ≡ len)
      × (len ≡ length m.payload)
      × (contents r ≡ m.payload ++ contents s)
unfolding read_body
read_body-ok id len r s m h = elim (dec_lt (length (contents r)) len) [
  | yes short ↦ absurd (ground (arith, h, short, read_full_short r len short))
  | no enough ↦
      let (t, read, left, same) = read_full_enough r len (omega arith) in
      ground (
        arith,
        h,
        read,
        left,
        length-take_within len (contents r),
        take-append-drop len (contents r),
      )
]

header_of :
    (xs : List ℕ)
    → 8 ≤ length xs
    → IsBytes xs
    → (len id : ℕ) × (ys : List ℕ) × (len < 2 ^ 32) × (id < 2 ^ 32) × (xs ≡ header len id ++ ys)
header_of xs h b =
    let (len, ys, hl, e, bs) = split_word xs (omega arith) b in
    let (id, zs, hi, e', bs') = split_word ys (omega (arith, ap length e)) bs in
    (len, id, zs, hl, hi, cc (e, e'))

read_message_short :
    (global : Config) (d : DataPack) (r : Reader) (x : Message × Reader)
    → length (contents r) < 8
    → read_message global d (some r) ≢ ok x
unfolding read_message
read_message_short global d r x h e = ground (arith, read_full_short r 8 h)

-- On a stream of bytes, a message that `read_message` gives has fields that fit their words and
-- a length within the limit, and the stream held its packet in front of what is left in the
-- reader.
pub read_message-ok :
    (global : Config) (d : DataPack) (r s : Reader) (m : Message)
    → IsBytes (contents r)
    → read_message global d (some r) ≡ ok (m, s)
    → IsWire m × Fits (limit_of global d) m × (contents r ≡ packet m ++ contents s)
read_message-ok global d r s m b h = elim (dec_lt (length (contents r)) 8) [
  | yes short ↦ absurd (read_message_short global d r (m, s) short h)
  | no enough ↦
      let (len, id, ys, hl, hi, e) = header_of (contents r) (omega arith) b in
      let (t, left, same, step) =
        read_message-header global d (record { id = id; payload = []; data_len = len }) r ys hi hl
          e in
      let body : read_body (record { id = id; payload = []; data_len = len }) t ≡ ok (m, s) =
        ground (arith, h, step) in
      let (i, l, exact, rest) = read_body-ok id len t s m body in
      (
        record {
          id_word = ground (arith, i, l, hi);
          exact = ground (arith, l, exact);
          len_word = ground (arith, l, hl);
        },
        record { exact = ground (arith, l, exact, hl); within = ground (arith, h, l, step) },
        ground (arith, e, i, l, left, rest),
      )
]
