-- ===== src/Gameapp/Service/Closing.antt =====
-- examples/gameapp/service.go: Sweep and Close. The loops over the connections take the entries that
-- were there when the loop began: a round deletes its own entry alone.
use ginx.Prelude.{ℕ, true, List, [], ◌∷◌, if◌then◌else◌, nat_eq, string_eq, int_eq}
use ginx.GoMap.{GoMap, keys}
use ginx.Session.{Session, remove_expired}
use ginx.Gameapp.Service.{Service, ConnectedPlayer, overdue, disconnect_locked}

module _ {C S : Type 0} where
  unfoldable pub drop_sessions : List Session → Service C S → Service C S
  drop_sessions [] s = s
  drop_sessions (value ∷ rest) s =
      drop_sessions rest (if value.bound then disconnect_locked s value.conn_id true else s)

  unfoldable pub drop_overdue : ℕ → GoMap ℕ (ConnectedPlayer C) → Service C S → Service C S
  drop_overdue now [] s = s
  drop_overdue now ((id, p) ∷ rest) s =
      drop_overdue now rest (if overdue p now then disconnect_locked s id true else s)

  unfoldable pub sweep : Service C S → ℕ → Service C S
  unfolding drop_sessions drop_overdue
  sweep s now =
      let (removed, sessions) = remove_expired s.sessions now in
      let s' = drop_sessions removed (record s { sessions = sessions }) in
      drop_overdue now s'.connections s'

  unfoldable pub drop_all : List ℕ → Service C S → Service C S
  drop_all [] s = s
  drop_all (id ∷ ids) s = drop_all ids (disconnect_locked s id true)

  unfoldable pub close_service : Service C S → Service C S
  unfolding drop_all
  close_service s = drop_all (keys s.connections) (record s { closed = true })
