-- ===== src/Persist/Memory/Examples.antt =====
-- One player saved over another.
use ginx.Prelude.{ℕ, ◌≡◌, refl, some, [], ◌∷◌, ok}
use ginx.GoMap.{put}
use ginx.Persist.Memory.{Player, MemoryStore, nil_context, save}

abbrev ada : Player
ada = record { player_id = 7; account_id = "ada"; payload = 1 ∷ []; updated_at = 5 }

abbrev older : MemoryStore
older = (7, record ada { payload = [] }) ∷ (8, record ada { player_id = 8 }) ∷ []

abbrev newer : MemoryStore
newer = (7, ada) ∷ (8, record ada { player_id = 8 }) ∷ []

save-older : save {E = ℕ} older nil_context (some ada) ≡ ok newer
unfolding save put
save-older = refl
