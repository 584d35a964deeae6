-- ===== src/Gnet/Server/Completion.antt =====
-- A shutdown that was called comes to its end, in whatever order the goroutines go on.
use ginx.Prelude.{ℕ, ◌+◌, ◌≡◌, ◌≢◌, true, List, [], ◌∷◌, if◌then◌else◌, nat_eq, string_eq, int_eq}
use ginx.GoMap.{GoMap}
use ginx.Gnet.Config.{Config}
use ginx.Gnet.Server.{Server, Event, step}
use ginx.Gnet.Server.Effort.{is_own}

-- How many of the events are steps of the server's goroutines.
abbrev pub owns : List Event → ℕ
owns [] = 0
owns (e ∷ es) = if is_own e then 1 + owns es else owns es

module _ (global : Config) where
  -- Every step of a goroutine of the server changes something; what others do is free.
  pub IsBusy : Server → List Event → Type 0
  unfolding step
  IsBusy s [] = Unit
  IsBusy s (e ∷ es) = (is_own e ≡ true → step global s e ≢ s) × IsBusy (step global s e) es

  -- No goroutine of the server has a step that changes anything.
  pub IsStuck : Server → Type 0
  unfolding step
  IsStuck s = (e : Event) → is_own e ≡ true → step global s e ≡ s
