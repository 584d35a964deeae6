-- ===== src/Gameapp/Progress.antt =====
-- examples/gameapp/progress.go: a player's progress and the two changes of it. `encoding/json` is a
-- parameter. A change runs inside the store's transaction, which keeps nothing of a change that
-- fails.
pub mod Rules
mod Examples
use ginx.Prelude.{
  ℕ, ◌+◌, ◌-◌, ◌/◌, String, Bool, true, false, not, ◌&&◌, ◌||◌, Option, none, some, List, [], ◌∷◌,
  leb, ◌==◌, nat_eq, string_eq, Result, ok, err, ◌>>=◌, ◌>>◌, reject, ℤ, pos, negsuc, int_eq,
  is_positive, to_nat, inc, dec,
}
use ginx.GoMap.{GoMap, get, put, size}

pub record Progress : Type 0 where
  pub version : ℤ
  pub level : ℤ
  pub experience : ℤ
  pub inventory : Option (GoMap String ℤ)
  pub starter_claimed : Bool

pub data ProgressError (E : Type 0) : Type 0 where
  reward_claimed item_unavailable unauthorized : ProgressError E
  invalid_progress invalid_inventory invalid_starter_state : ProgressError E
  of_json : E → ProgressError E

-- A player whose data is empty starts here.
abbrev pub beginner : Progress
beginner = record {
  version = pos 1;
  level = pos 1;
  experience = pos 0;
  inventory = some [];
  starter_claimed = false;
}

-- `1 + p.Experience/100`, for an experience from 0 to 100.
abbrev pub level_of : ℕ → ℤ
level_of experience = pos (1 + experience / 100)

abbrev in_range : ℤ → ℕ → Bool
in_range (pos n) max = leb n max
in_range (negsuc n) max = false

-- The range over the inventory.
abbrev pub items_valid : GoMap String ℤ → Bool
items_valid [] = true
items_valid ((item, count) ∷ rest) = item == "potion" && in_range count 2 && items_valid rest

abbrev starter_valid : Bool → ℤ → ℕ → Bool
starter_valid false experience items = experience == pos 0 && items == 0
starter_valid true experience items = experience == pos 100

-- The checks of a progress that was decoded.
pub checked : {E : Type 0} → Progress → Result (ProgressError E) Progress
checked p = elim p.inventory [
  | none ↦ err invalid_progress
  | some items ↦ do
    reject
        (not (p.version == pos 1)
          || not (in_range p.experience 100)
          || not (p.level == level_of (to_nat p.experience)))
        invalid_progress
    reject (not (items_valid items)) invalid_inventory
    reject (not (starter_valid p.starter_claimed p.experience (size items))) invalid_starter_state
    ok p
]

-- What a nil or missing entry of the map counts.
abbrev pub item_count : String → Option (GoMap String ℤ) → ℤ
item_count item none = pos 0
item_count item (some items) = elim (get item items) [ none ↦ pos 0 | some n ↦ n ]

abbrev pub set_item : String → ℤ → Option (GoMap String ℤ) → Option (GoMap String ℤ)
set_item item count none = none
set_item item count (some items) = some (put item count items)

-- `n + 2`
abbrev add_two : ℤ → ℤ
add_two n = inc (inc n)

abbrev add_hundred : ℤ → ℕ
add_hundred (pos n) = n + 100
add_hundred (negsuc n) = 99 - n

-- The change of `ClaimStarter`, on a progress that was decoded: its experience is not negative.
pub claim_starter : {E : Type 0} → Progress → Result (ProgressError E) Progress
claim_starter p = do
  reject p.starter_claimed reward_claimed
  let experience = add_hundred p.experience
  ok (record p {
    starter_claimed = true;
    experience = pos experience;
    level = level_of experience;
    inventory = set_item "potion" (add_two (item_count "potion" p.inventory)) p.inventory;
  })

-- The change of `UseItem`.
pub use_item : {E : Type 0} → String → Progress → Result (ProgressError E) Progress
use_item item p = do
  reject (not (item == "potion") || not (is_positive (item_count item p.inventory)))
      item_unavailable
  ok (record p { inventory = set_item item (dec (item_count item p.inventory)) p.inventory })

pub record Json (E : Type 0) : Type 0 where
  pub marshal : Progress → Result E (List ℕ)
  pub unmarshal : List ℕ → Result E Progress

-- The player of the store.
pub record Player : Type 0 where
  pub account_id : String
  pub payload : List ℕ

abbrev json_result {ℓ} : {E : Type 0} {A : Type ℓ} → Result E A → Result (ProgressError E) A
json_result (ok a) = ok a
json_result (err e) = err (of_json e)

module _ {E : Type 0} (json : Json E) where
  pub decode_progress : List ℕ → Result (ProgressError E) Progress
  unfolding checked
  decode_progress [] = ok beginner
  decode_progress (b ∷ bs) = json_result (json.unmarshal (b ∷ bs)) >>= checked

  -- The function that `changeProgress` runs in the transaction: the new player and the progress for
  -- the answer.
  pub change_progress :
      String
      → (Progress → Result (ProgressError E) Progress)
      → Player
      → Result (ProgressError E) (Player × Progress)
  unfolding decode_progress
  change_progress account_id change player = do
    reject (not (player.account_id == account_id)) unauthorized
    p ← decode_progress player.payload
    p' ← change p
    bytes ← json_result (json.marshal p')
    ok (record player { payload = bytes }, p')
