-- ===== src/Gameapp/Progress/Examples.antt =====
-- A beginner claims the starter reward and uses a potion.
use ginx.Prelude.{ℕ, ◌≡◌, refl, true, false, some, [], ◌∷◌, ok, err, pos}
use ginx.GoMap.{get, put}
use ginx.Gameapp.Progress.{Progress, beginner, claim_starter, use_item, item_count, reward_claimed}
use ginx.Gameapp.Progress.Rules.{IsValid, claim_starter-IsValid}

beginner-IsValid : IsValid beginner
beginner-IsValid = record {
  items = [];
  has_items = refl;
  versioned = refl;
  experienced = refl;
  leveled = refl;
  stocked = refl;
  started = refl;
}

abbrev rewarded : Progress
rewarded = record {
  version = pos 1;
  level = pos 2;
  experience = pos 100;
  inventory = some (("potion", pos 2) ∷ []);
  starter_claimed = true;
}

claim-rewarded : claim_starter {E = ℕ} beginner ≡ ok rewarded
unfolding claim_starter get put
claim-rewarded = refl

claim_starter-IsValid_example :
    IsValid rewarded
    × (false ≡ false)
    × (pos 100 ≡ pos 100)
    × (item_count "potion" rewarded.inventory ≡ pos 2)
    × (claim_starter {E = ℕ} rewarded ≡ err reward_claimed)
claim_starter-IsValid_example =
    claim_starter-IsValid {E = ℕ} beginner rewarded beginner-IsValid claim-rewarded

rewarded-IsValid : IsValid rewarded
rewarded-IsValid =
    (claim_starter-IsValid {E = ℕ} beginner rewarded beginner-IsValid claim-rewarded).0

abbrev thirsty : Progress
thirsty = record rewarded { inventory = some (("potion", pos 1) ∷ []) }

use-thirsty : use_item {E = ℕ} "potion" rewarded ≡ ok thirsty
unfolding use_item get put
use-thirsty = refl
