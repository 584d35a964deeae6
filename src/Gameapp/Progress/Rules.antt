-- ===== src/Gameapp/Progress/Rules.antt =====
-- The changes keep to the rules that the decoding checks.
use ginx.Prelude.{
  zero, suc, String, ◌≡◌, refl, sym, ap, ◌∙◌, inl, inr, true, false, some, [], ◌∷◌, arith, ◌==◌,
  string_eq, ==_iff, Bool-cases, Option-cases, Result, ok, err, Result-cases, ℤ, pos, negsuc,
  int_eq, is_positive, to_nat, inc, dec,
}
use ginx.GoMap.{GoMap, get, put, size}
use ginx.GoMap.Laws.{get-put, size-put, size_zero}
use text.Mathlib.TextEquality.{eq_iff}
use ginx.Gameapp.Progress.{
  Progress, ProgressError, level_of, in_range, items_valid, starter_valid, checked, item_count,
  claim_starter, use_item, reward_claimed, Player, Json, change_progress, decode_progress,
}

-- What the checks let through.
pub record IsValid (p : Progress) : Type 0 where
  pub items : GoMap String ℤ
  pub has_items : p.inventory ≡ some items
  pub versioned : p.version ≡ pos 1
  pub experienced : in_range p.experience 100 ≡ true
  pub leveled : p.level ≡ level_of (to_nat p.experience)
  pub stocked : items_valid items ≡ true
  pub started : starter_valid p.starter_claimed p.experience (size items) ≡ true

module _ {E : Type 0} where
  pub checked-IsValid : (p q : Progress) → checked {E = E} p ≡ ok q → IsValid p × (q ≡ p)
  unfolding checked
  checked-IsValid p q h = elim (Option-cases p.inventory) [
    | inl e ↦ absurd (ground (arith, h, e))
    | inr (items, e) ↦ (
      record {
        items = items;
        has_items = e;
        versioned = ground (arith, h, e, ==_iff p.version (pos 1));
        experienced = ground (arith, h, e);
        leveled = ground (arith, h, e, ==_iff p.level (level_of (to_nat p.experience)));
        stocked = ground (arith, h, e);
        started = ground (arith, h, e);
      },
      ground (arith, h, e),
    )
  ]

  pub IsValid-checked : (p : Progress) → IsValid p → checked {E = E} p ≡ ok p
  unfolding checked
  IsValid-checked p v = ground (
    arith,
    v.has_items,
    v.versioned,
    v.experienced,
    v.leveled,
    v.stocked,
    v.started,
    ==_iff p.version (pos 1),
    ==_iff p.level (level_of (to_nat p.experience)),
  )

items_valid-get :
    (items : GoMap String ℤ) (item : String) (n : ℤ)
    → items_valid items ≡ true
    → get item items ≡ some n
    → in_range n 2 ≡ true
unfolding get
items_valid-get [] item n h g = absurd (ground (arith, g))
items_valid-get ((j, k) ∷ items) item n h g = elim (Bool-cases (j == item)) [
  | inl e ↦ ground (arith, h, g, e)
  | inr e ↦ items_valid-get items item n (ground (arith, h)) (ground (arith, g, e))
]

items_valid-put :
    (items : GoMap String ℤ) (n : ℤ)
    → items_valid items ≡ true
    → in_range n 2 ≡ true
    → items_valid (put "potion" n items) ≡ true
unfolding put
items_valid-put [] n h r = ground (arith, r)
items_valid-put ((j, k) ∷ items) n h r = elim (Bool-cases (j == "potion")) [
  | inl e ↦ ground (arith, h, r, e)
  | inr e ↦ absurd (ground (arith, h, e))
]

no_items_yet :
    (p : Progress) (v : IsValid p)
    → p.starter_claimed ≡ false
    → (v.items ≡ []) × (p.experience ≡ pos 0)
no_items_yet p v c = (
  size_zero v.items (ground (arith, v.started, c)),
  ground (arith, v.started, c, ==_iff p.experience (pos 0)),
)

module _ {E : Type 0} (p p' : Progress) (v : IsValid p) where
  -- From a valid progress, the starter reward is given only if it was not given before; the
  -- experience is then 100, there are two potions, the progress is valid, and a second claim is
  -- refused.
  pub claim_starter-IsValid :
      claim_starter {E = E} p ≡ ok p'
      → IsValid p'
        × (p.starter_claimed ≡ false)
        × (p'.experience ≡ pos 100)
        × (item_count "potion" p'.inventory ≡ pos 2)
        × (claim_starter {E = E} p' ≡ err reward_claimed)
  unfolding claim_starter get put
  claim_starter-IsValid h =
      let unclaimed : p.starter_claimed ≡ false = ground (arith, h) in
      let (none_yet, beginning) = no_items_yet p v unclaimed in
      let after : p' ≡ record p {
        starter_claimed = true;
        experience = pos 100;
        level = level_of 100;
        inventory = some (("potion", pos 2) ∷ []);
      } =
        ground (arith, h, unclaimed, none_yet, beginning, v.has_items) in
      (
        record {
          items = ("potion", pos 2) ∷ [];
          has_items = ground (arith, after);
          versioned = ground (arith, after, v.versioned);
          experienced = ground (arith, after);
          leveled = ground (arith, after);
          stocked = refl;
          started = ground (arith, after);
        },
        unclaimed,
        ground (arith, after),
        ground (arith, after),
        ground (arith, after),
      )

  -- A use of an item on a valid progress takes one potion, of which there was one at least, and the
  -- progress is valid.
  pub use_item-IsValid :
      (item : String)
      → use_item {E = E} item p ≡ ok p'
      → IsValid p'
        × (item ≡ "potion")
        × (inc (item_count "potion" p'.inventory) ≡ item_count "potion" p.inventory)
        × (is_positive (item_count "potion" p.inventory) ≡ true)
  unfolding use_item
  use_item-IsValid item h = elim (Option-cases (get "potion" v.items)) [
    | inl e ↦
        let potion : item ≡ "potion" = ground (arith, h, eq_iff item "potion") in
        absurd (ground (arith, h, v.has_items, e, potion))
    | inr (n, e) ↦
        let potion : item ≡ "potion" = ground (arith, h, eq_iff item "potion") in
        let some_left : is_positive n ≡ true = ground (arith, h, v.has_items, e, potion) in
        let after : p' ≡ record p { inventory = some (put "potion" (dec n) v.items) } =
          ground (arith, h, v.has_items, e, potion) in
        let range : in_range n 2 ≡ true = items_valid-get v.items "potion" n v.stocked e in
        (
          record {
            items = put "potion" (dec n) v.items;
            has_items = ground (arith, after);
            versioned = ground (arith, after, v.versioned);
            experienced = ground (arith, after, v.experienced);
            leveled = ground (arith, after, v.leveled);
            stocked = items_valid-put v.items (dec n) v.stocked (fewer n some_left range);
            started = ground (arith, after, v.started, size-put "potion" (dec n) v.items, e);
          },
          potion,
          ground (
            arith,
            after,
            get-put "potion" "potion" (dec n) v.items,
            v.has_items,
            e,
            inc-dec n some_left,
            eq_iff "potion" "potion",
          ),
          ground (arith, v.has_items, e, some_left),
        )
  ]
    where
      fewer : (n : ℤ) → is_positive n ≡ true → in_range n 2 ≡ true → in_range (dec n) 2 ≡ true
      fewer (pos zero) s r = absurd (ground (arith, s))
      fewer (pos (suc n)) s r = ground (arith, r)
      fewer (negsuc n) s r = absurd (ground (arith, s))

      inc-dec : (n : ℤ) → is_positive n ≡ true → inc (dec n) ≡ n
      inc-dec (pos zero) s = absurd (ground (arith, s))
      inc-dec (pos (suc n)) s = ground (arith)
      inc-dec (negsuc n) s = absurd (ground (arith, s))

-- A transaction that succeeds was the account's own, started from a progress that decodes, and
-- writes what the JSON gives for the changed progress, which is the answer.
pub change_progress-ok :
    {E : Type 0} (json : Json E) (account : String)
    (change : Progress → Result (ProgressError E) Progress) (player player' : Player)
    (answer : Progress)
    → change_progress json account change player ≡ ok (player', answer)
    → (player.account_id ≡ account)
      × ((p : Progress) × (decode_progress json player.payload ≡ ok p)
          × (change p ≡ ok answer)
          × (json.marshal answer ≡ ok player'.payload)
          × (player'.account_id ≡ account))
unfolding change_progress
change_progress-ok json account change player player' answer h =
    let own : player.account_id ≡ account = ground (arith, h, eq_iff player.account_id account) in
    elim (Result-cases (decode_progress json player.payload)) [
      | inr (x, e) ↦ absurd (ground (arith, h, e))
      | inl (p, e) ↦ elim (Result-cases (change p)) [
        | inr (x, f) ↦ absurd (ground (arith, h, e, f))
        | inl (q, f) ↦ elim (Result-cases (json.marshal q)) [
          | inr (x, g) ↦ absurd (ground (arith, h, e, f, g))
          | inl (bytes, g) ↦
              let same : q ≡ answer = ground (arith, h, e, f, g) in
              (
                own,
                (
                  p,
                  e,
                  f ∙ ap (λ r. ok r) same,
                  ap json.marshal (sym same) ∙ g ∙ ap (λ bs. ok bs) (ground (arith, h, e, f, g)),
                  ground (arith, h, e, f, g, own),
                ),
              )
        ]
      ]
    ]
