-- ===== src/Unity/Messages/Chat/RoundTrip.antt =====
-- What is written for a talk and a broadcast is read back.
use ginx.Prelude.{
  ℕ, ◌^◌, ◌<◌, ◌≡◌, refl, sym, ap, subst, ◌≢◌, Option, none, some, List, [], arith, ◌==◌, nat_eq,
  string_eq, ==_iff, length, ok, err, ◌>>=◌, Result-cases, pos, int_eq,
}
use ginx.Unity.Varint.{out_of_fuel}
use ginx.Unity.Fields.{append_varint, append_bytes}
use ginx.Unity.Fields.Laws.{
  Decodes, Decodes-nil, Decodes-append_bytes, Decodes-if, decode_fields-Decodes,
}
use ginx.Unity.Fields.Termination.{decode_fields-ne-out_of_fuel}
use ginx.Unity.Messages.{
  IsInt32, extend_int32, Decodes-append_int32, append_text, Decodes-append_text,
}
use ginx.Unity.Messages.Position.{UnityPosition, zero_position, unmarshal_position}
use ginx.Unity.Messages.Position.RoundTrip.{
  IsPosition, marshal_position-ok, unmarshal_position-ends,
}
use ginx.Unity.Messages.Chat.{
  UnityTalk, UnityBroadCast, zero_broadcast, marshal_talk, talk_field, unmarshal_talk,
  append_position, marshal_broadcast, broadcast_field, unmarshal_broadcast,
}

pub unmarshal-marshal_talk :
    (m before : UnityTalk)
    → length m.content < 2 ^ 64
    → (marshal_talk m >>= unmarshal_talk (some before)) ≡ ok m
unfolding marshal_talk unmarshal_talk talk_field
unmarshal-marshal_talk m before h = decode_fields-Decodes talk_field _ before m (
    Decodes-append_bytes talk_field _ 1 m.content before before m (Decodes-nil talk_field before)
      refl (omega arith) (omega arith) h)

-- A position that is not nil has coordinates of 32 bits.
abbrev pub IsPlace : Option UnityPosition → Type 0
IsPlace none = Unit
IsPlace (some p) = IsPosition p

append_position-ok :
    (bytes : List ℕ) (state : UnityBroadCast) (place : Option UnityPosition)
    → IsPlace place
    → state.p ≡ none
    → Decodes broadcast_field bytes zero_broadcast state
    → (out : List ℕ) × (append_position bytes place ≡ ok out)
      × Decodes broadcast_field out zero_broadcast (record state { p = place })
unfolding append_position broadcast_field
append_position-ok bytes state none h n d = (
  bytes,
  refl,
  subst (λ q. Decodes broadcast_field bytes zero_broadcast (record state { p = q })) n d,
)
append_position-ok bytes state (some p) h n d =
    let (position, e, l, read) = marshal_position-ok p h in
    (
      append_bytes bytes 4 position,
      rw e refl,
      Decodes-append_bytes broadcast_field bytes 4 position zero_broadcast state _ d
          (rw (read zero_position) refl) (omega arith) (omega arith) (omega (arith, l)),
    )

with_text : UnityBroadCast → UnityBroadCast
with_text m = record zero_broadcast { pid = m.pid; tp = m.tp; content = m.content }

text_bytes : UnityBroadCast → List ℕ
text_bytes m =
    append_text (append_varint (append_varint [] 1 (extend_int32 m.pid)) 2 (extend_int32 m.tp))
      m.content

-- The fields in front of the position.
text_bytes-Decodes :
    (m : UnityBroadCast)
    → IsInt32 m.pid
    → IsInt32 m.tp
    → length m.content < 2 ^ 64
    → Decodes broadcast_field (text_bytes m) zero_broadcast (with_text m)
unfolding broadcast_field text_bytes with_text
text_bytes-Decodes m hpid htp hc =
    let one : UnityBroadCast = record zero_broadcast { pid = m.pid } in
    let two : UnityBroadCast = record one { tp = m.tp } in
    Decodes-append_text broadcast_field _ m.content zero_broadcast two (with_text m)
      (Decodes-append_int32 broadcast_field _ 2 m.tp zero_broadcast one two
        (Decodes-append_int32 broadcast_field _ 1 m.pid zero_broadcast zero_broadcast one
          (Decodes-nil broadcast_field zero_broadcast) hpid (λ t. rw t refl) (omega arith)
          (omega arith))
        htp (λ t. rw t refl) (omega arith) (omega arith))
      (λ t. ap (λ (text : List ℕ). record two { content = text }) (sym t)) refl hc

-- A broadcast is read back from what it was written as: the fields that are left out are the zeros of
-- the receiver.
pub unmarshal-marshal_broadcast :
    (m : UnityBroadCast)
    → IsInt32 m.pid
    → IsInt32 m.tp
    → IsInt32 m.action_data
    → IsPlace m.p
    → length m.content < 2 ^ 64
    → (marshal_broadcast m >>= unmarshal_broadcast (some zero_broadcast)) ≡ ok m
unfolding marshal_broadcast unmarshal_broadcast broadcast_field with_text text_bytes
unmarshal-marshal_broadcast m hpid htp ha hp hc =
    let four : UnityBroadCast = record (with_text m) { p = m.p } in
    let (out, e, d) =
      append_position-ok (text_bytes m) (with_text m) m.p hp refl
        (text_bytes-Decodes m hpid htp hc) in
    rw e (
      decode_fields-Decodes broadcast_field _ zero_broadcast m (
        Decodes-if broadcast_field (m.action_data == pos 0) out _ zero_broadcast m
          (λ t.
            subst
              (λ a. Decodes broadcast_field out zero_broadcast (record four { action_data = a }))
              (sym ((==_iff m.action_data (pos 0)).0 t)) d)
          (λ t.
            Decodes-append_int32 broadcast_field out 5 m.action_data zero_broadcast four m d ha
              (λ t. rw t refl) (omega arith) (omega arith))))

-- Reading a broadcast ends by itself, whatever the bytes.
pub unmarshal_broadcast-ends :
    (before : Option UnityBroadCast) (bytes : List ℕ)
    → unmarshal_broadcast before bytes ≢ err out_of_fuel
unfolding unmarshal_broadcast broadcast_field
unmarshal_broadcast-ends none bytes = ground arith
unmarshal_broadcast-ends (some m) bytes =
    decode_fields-ne-out_of_fuel broadcast_field bytes m λ s field. ground (
      arith,
      unmarshal_position-ends (some zero_position) field.value,
      Result-cases (unmarshal_position (some zero_position) field.value),
    )
