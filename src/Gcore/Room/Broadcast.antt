-- ===== src/Gcore/Room/Broadcast.antt =====
-- Broadcast against its description: one send to each recipient, in ascending order.
use ginx.Prelude.{
  ℕ, Bool, true, false, ◌&&◌, not, List, [], ◌∷◌, ◌++◌, Option, none, some, ◌==◌, nat_eq, ◌≡◌, refl,
  arith, elem, map, inl, inr, filter_by, Bool-cases,
}
use mathlib.Core.List.{append_assoc, append-nil}
use ginx.GoMap.{has}
use ginx.Sort.{IsSorted, IsSorted-filter_by, elem-filter_by}
use ginx.Gcore.Room.{Room, members_of, BroadcastError, note_error, send_to, send_loop, broadcast_to}
use ginx.Gcore.Room.Membership.{IsWf}
use ginx.Gcore.Room.Members.{members_of-IsSorted}

abbrev pub is_recipient : Option ℕ → ℕ → Bool
is_recipient none id = true
is_recipient (some excluded) id = not (id == excluded)

module _ {C W E : Type 0} (get_conn_id : C → ℕ)
    (send_buff_msg : C → ℕ → List ℕ → W → Option E × W) where
  -- The sends one after the other, and the errors of those that failed.
  pub deliver : ℕ → List ℕ → List C → W → List (BroadcastError E) × W
  deliver msg_id bytes [] w = ([], w)
  deliver msg_id bytes (c ∷ cs) w =
      let (e, w') = send_buff_msg c msg_id bytes w in
      let (es, w'') = deliver msg_id bytes cs w' in
      (elim e [ none ↦ es | some x ↦ record { conn_id = get_conn_id c; error = x } ∷ es ], w'')

  send_to_skips :
      (msg_id : ℕ) (bytes : List ℕ) (exclude : Option ℕ) (c : C) (es : List (BroadcastError E))
      (w : W)
      → is_recipient exclude (get_conn_id c) ≡ false
      → send_to get_conn_id send_buff_msg msg_id bytes exclude c (es, w) ≡ (es, w)
  unfolding send_to
  send_to_skips msg_id bytes none c es w h = absurd (cc)
  send_to_skips msg_id bytes (some x) c es w h = ground arith

  send_to_sends :
      (msg_id : ℕ) (bytes : List ℕ) (exclude : Option ℕ) (c : C) (es : List (BroadcastError E))
      (w : W)
      → is_recipient exclude (get_conn_id c) ≡ true
      → send_to get_conn_id send_buff_msg msg_id bytes exclude c (es, w) ≡ (
        note_error get_conn_id send_buff_msg (get_conn_id c) (send_buff_msg c msg_id bytes w).0 es,
        (send_buff_msg c msg_id bytes w).1,
      )
  unfolding send_to
  send_to_sends msg_id bytes none c es w h = refl
  send_to_sends msg_id bytes (some x) c es w h = ground arith

  abbrev recipients : Option ℕ → List C → List C
  recipients exclude = filter_by (λ c. is_recipient exclude (get_conn_id c))

  note_error-append :
      (id : ℕ) (e : Option E) (es fs : List (BroadcastError E))
      → note_error get_conn_id send_buff_msg id e es ++ fs
        ≡ es ++ (elim e [ none ↦ fs | some x ↦ record { conn_id = id; error = x } ∷ fs ])
  note_error-append id none es fs = refl
  note_error-append id (some x) es fs = append_assoc es (record { conn_id = id; error = x } ∷ []) fs

  send_loop-deliver :
      (msg_id : ℕ) (bytes : List ℕ) (exclude : Option ℕ) (cs : List C)
      (es : List (BroadcastError E)) (w : W)
      → send_loop get_conn_id send_buff_msg msg_id bytes exclude cs (es, w) ≡ (
        es ++ (deliver msg_id bytes (recipients exclude cs) w).0,
        (deliver msg_id bytes (recipients exclude cs) w).1,
      )
  unfolding send_loop deliver
  send_loop-deliver msg_id bytes exclude [] es w = rw append-nil refl
  send_loop-deliver msg_id bytes exclude (c ∷ cs) es w =
      elim (Bool-cases (is_recipient exclude (get_conn_id c))) [
        | inl sent ↦ ground (
          arith,
          sent,
          send_to_sends msg_id bytes exclude c es w sent,
          send_loop-deliver msg_id bytes exclude cs
              (note_error get_conn_id send_buff_msg (get_conn_id c)
                (send_buff_msg c msg_id bytes w).0 es)
              (send_buff_msg c msg_id bytes w).1,
          note_error-append (get_conn_id c) (send_buff_msg c msg_id bytes w).0 es
              (deliver msg_id bytes (recipients exclude cs) (send_buff_msg c msg_id bytes w).1).0,
        )
        | inr skipped ↦ ground (
          arith,
          skipped,
          send_to_skips msg_id bytes exclude c es w skipped,
          send_loop-deliver msg_id bytes exclude cs es w,
        )
      ]

  -- A broadcast is the delivery to the recipients, one after the other.
  pub broadcast_to-deliver :
      (r : Room C) (msg_id : ℕ) (bytes : List ℕ) (exclude : Option ℕ) (w : W)
      → broadcast_to get_conn_id send_buff_msg r msg_id bytes exclude w
        ≡ deliver msg_id bytes (recipients exclude (members_of r)) w
  unfolding broadcast_to
  broadcast_to-deliver r msg_id bytes exclude w =
      send_loop-deliver msg_id bytes exclude (members_of r) [] w

  map-recipients :
      (exclude : Option ℕ) (cs : List C)
      → map get_conn_id (recipients exclude cs)
        ≡ filter_by (is_recipient exclude) (map get_conn_id cs)
  map-recipients exclude [] = refl
  map-recipients exclude (c ∷ cs) = ground (arith, map-recipients exclude cs)

  -- In a well-formed room a broadcast is one send to each of a list of connections and returns
  -- the errors of these sends; the list is in strictly ascending order of the identifiers and
  -- has exactly the members other than the excluded one.
  pub broadcast_to-recipients :
      (r : Room C) (msg_id : ℕ) (bytes : List ℕ) (exclude : Option ℕ) (w : W)
      → IsWf get_conn_id r
      → (cs : List C) × (broadcast_to get_conn_id send_buff_msg r msg_id bytes exclude w
          ≡ deliver msg_id bytes cs w)
        × IsSorted (map get_conn_id cs)
        × ((k : ℕ) → elem k (map get_conn_id cs) ≡ (has k r.members && is_recipient exclude k))
  broadcast_to-recipients r msg_id bytes exclude w v =
      let (sorted, all) = members_of-IsSorted get_conn_id r v in
      let ids = map get_conn_id (members_of r) in
      (
        recipients exclude (members_of r),
        broadcast_to-deliver r msg_id bytes exclude w,
        rw (map-recipients exclude (members_of r))
            (IsSorted-filter_by (is_recipient exclude) ids sorted),
        λ k.
            rw
              (
                map-recipients exclude (members_of r),
                elem-filter_by k (is_recipient exclude) ids,
                all k,
              )
              refl,
      )
