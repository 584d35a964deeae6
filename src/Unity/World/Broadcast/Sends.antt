-- ===== src/Unity/World/Broadcast/Sends.antt =====
-- A broadcast is its sends one after the other, and a player left out is not in their list.
use ginx.Prelude.{
  ℕ, ◌≡◌, refl, ap, ◌∙◌, not, Option, none, some, List, [], ◌∷◌, ◌++◌, arith, nat_eq, string_eq,
  Bool-cases, filter_by, int_eq,
}
use ginx.Unity.World.{UnityWorldPlayer}
use ginx.Unity.World.Broadcast.{note, send_each, skips, broadcast_each}
use mathlib.Core.List.{append_assoc, append-nil}

module _ {C W E : Type 0} (send_buff_msg : C → ℕ → List ℕ → W → Option E × W) where
  -- The sends one after the other, and the errors of those that failed.
  pub deliver : ℕ → List ℕ → List C → W → List E × W
  deliver msg_id bytes [] w = ([], w)
  deliver msg_id bytes (c ∷ cs) w =
      let (e, w') = send_buff_msg c msg_id bytes w in
      let (es, w'') = deliver msg_id bytes cs w' in (elim e [ none ↦ es | some x ↦ x ∷ es ], w'')

module _ {C : Type 0} where
  abbrev pub connections_of : List (UnityWorldPlayer C) → List C
  connections_of [] = []
  connections_of (p ∷ ps) = p.connection ∷ connections_of ps

  -- The players that are left in.
  unfoldable pub unskipped : Option ℕ → List (UnityWorldPlayer C) → List (UnityWorldPlayer C)
  unskipped exclude = filter_by (λ p. not (skips exclude p.conn_id))

module _ {C W E : Type 0} (send_buff_msg : C → ℕ → List ℕ → W → Option E × W) where
  note-append :
      (e : Option E) (es fs : List E)
      → note e es ++ fs ≡ es ++ (elim e [ none ↦ fs | some x ↦ x ∷ fs ])
  note-append none es fs = refl
  note-append (some x) es fs = append_assoc es (x ∷ []) fs

  pub send_each-deliver :
      (msg_id : ℕ) (bytes : List ℕ) (ps : List (UnityWorldPlayer C)) (es : List E) (w : W)
      → send_each send_buff_msg msg_id bytes ps (es, w) ≡ (
        es ++ (deliver send_buff_msg msg_id bytes (connections_of ps) w).0,
        (deliver send_buff_msg msg_id bytes (connections_of ps) w).1,
      )
  unfolding send_each deliver
  send_each-deliver msg_id bytes [] es w = rw append-nil refl
  send_each-deliver msg_id bytes (p ∷ ps) es w =
      let sent = send_buff_msg p.connection msg_id bytes w in
      send_each-deliver msg_id bytes ps (note sent.0 es) sent.1
      ∙ ap (λ xs. (xs, (deliver send_buff_msg msg_id bytes (connections_of ps) sent.1).1))
          (note-append sent.0 es (deliver send_buff_msg msg_id bytes (connections_of ps) sent.1).0)

  -- To leave a player out is not to have it in the list.
  pub broadcast_each-unskipped :
      (msg_id : ℕ) (bytes : List ℕ) (exclude : Option ℕ) (ps : List (UnityWorldPlayer C))
      (es : List E) (w : W)
      → broadcast_each send_buff_msg msg_id bytes exclude ps (es, w)
        ≡ send_each send_buff_msg msg_id bytes (unskipped exclude ps) (es, w)
  unfolding broadcast_each send_each unskipped
  broadcast_each-unskipped msg_id bytes exclude [] es w = refl
  broadcast_each-unskipped msg_id bytes exclude (p ∷ ps) es w =
      let sent = send_buff_msg p.connection msg_id bytes w in
      ground (
        arith,
        broadcast_each-unskipped msg_id bytes exclude ps es w,
        broadcast_each-unskipped msg_id bytes exclude ps (note sent.0 es) sent.1,
        Bool-cases (skips exclude p.conn_id),
      )
