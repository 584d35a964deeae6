-- ===== src/Persist/JsonFile/Examples.antt =====
-- A small format in the place of JSON, and one save on it.
use ginx.Prelude.{
  append-nil, ℕ, zero, suc, ◌≡◌, refl, inl, inr, none, some, List, [], ◌∷◌, ◌++◌, arith, ◌==◌,
  nat_eq, Bool-cases, Result, ok, err,
}
use ginx.GoMap.{get, put}
use ginx.Persist.Memory.{Player, of_file, MemoryStore, live, player_not_found, save as save_memory}
use ginx.Persist.JsonFile.{
  Json, Faults, File, load, save, no_faults, saved, read_locked, write_temporary, write_locked,
}
use ginx.Persist.JsonFile.Refinement.{AllWritable, ReadsBack, Holds, Follows, save-Follows}
use ginx.Persist.JsonFile.Outcomes.{save_rename_fails}

-- The format has no place for the account.
abbrev IsAda : Player → Type 0
IsAda p = p.account_id ≡ "ada"

abbrev shifted : List ℕ → List ℕ → List ℕ
shifted [] rest = rest
shifted (b ∷ bs) rest = suc b ∷ shifted bs rest

abbrev text_of : MemoryStore → List ℕ
text_of [] = []
text_of ((k, p) ∷ m) = 0 ∷ k ∷ p.player_id ∷ p.updated_at ∷ shifted p.payload (text_of m)

-- The bytes before the first player, and the players.
parse : List ℕ → List ℕ × MemoryStore
parse (zero ∷ k ∷ id ∷ t ∷ rest) =
    let (bs, m) = parse rest in
    ([], (k, record { player_id = id; account_id = "ada"; payload = bs; updated_at = t }) ∷ m)
parse (suc b ∷ rest) = let (bs, m) = parse rest in (b ∷ bs, m)
parse _ = ([], [])

abbrev unmarshal_tagged : List ℕ → Result ℕ MemoryStore
unmarshal_tagged [] = err 1
unmarshal_tagged (b ∷ bs) = ok (parse bs).1

abbrev tagged : Json ℕ
tagged = record { marshal = λ m. ok (9 ∷ text_of m); unmarshal = unmarshal_tagged }

parse-shifted : (bs xs : List ℕ) → parse (shifted bs xs) ≡ (bs ++ (parse xs).0, (parse xs).1)
unfolding parse
parse-shifted [] xs = refl
parse-shifted (b ∷ bs) xs = ground (arith, parse-shifted bs xs)

parse-text_of : (m : MemoryStore) → (parse (text_of m)).0 ≡ []
unfolding parse
parse-text_of [] = refl
parse-text_of ((k, p) ∷ m) = refl

get-parse :
    (m : MemoryStore) (k : ℕ)
    → ((p : Player) → get k m ≡ some p → IsAda p)
    → get k (parse (text_of m)).1 ≡ get k m
unfolding parse get
get-parse [] k h = refl
get-parse ((j, p) ∷ m) k h = elim (Bool-cases (j == k)) [
  | inl e ↦
      ground
        (arith, e, h p, parse-shifted p.payload (text_of m), parse-text_of m, append-nil p.payload)
  | inr e ↦ ground (
    arith,
    e,
    parse-shifted p.payload (text_of m),
    get-parse m k (λ q g. h q (ground (arith, e, g))),
  )
]

tagged-ReadsBack : ReadsBack tagged IsAda
tagged-ReadsBack = record {
  bytes = λ players all. (9, text_of players, refl);
  same = λ players bs all e.
      ((parse (text_of players)).1, ground (arith, e), λ k. get-parse players k (λ p g. all k p g));
}

abbrev ada : Player
ada = record { player_id = 7; account_id = "ada"; payload = 1 ∷ []; updated_at = 5 }

abbrev held : MemoryStore
held = (7, record ada { payload = [] }) ∷ []

abbrev on_disk : File
on_disk = some (9 ∷ 0 ∷ 7 ∷ 7 ∷ 5 ∷ [])

on_disk-Holds : Holds tagged on_disk held
unfolding read_locked parse get
on_disk-Holds = record { back = held; reads = refl; agrees = λ k. refl }

held-AllWritable : AllWritable IsAda held
unfolding get
held-AllWritable k p g = ground (arith, g)

save-Follows_example :
    Follows tagged on_disk
      (save_memory held live (some ada))
      (save tagged no_faults live (some ada) on_disk)
save-Follows_example =
    save-Follows tagged IsAda tagged-ReadsBack on_disk held on_disk-Holds held-AllWritable live
      (some ada) (λ p e. ground (arith, e))

-- A disk that fails at the renaming.
abbrev bad_rename : Faults ℕ
bad_rename = record no_faults { rename = some 28 }

ada-saved : saved tagged bad_rename live (some ada) on_disk ≡ ok ((7, ada) ∷ [])
unfolding read_locked parse put
ada-saved = refl

abbrev written_bytes : List ℕ
written_bytes = 9 ∷ 0 ∷ 7 ∷ 7 ∷ 5 ∷ 2 ∷ []

ada-written : write_temporary tagged bad_rename ((7, ada) ∷ []) ≡ ok written_bytes
unfolding write_temporary
ada-written = refl

save_rename_fails_example :
    (save tagged bad_rename live (some ada) on_disk ≡ (err (of_file 28), none))
    × (load tagged bad_rename live 7 (save tagged bad_rename live (some ada) on_disk).1
        ≡ err player_not_found)
save_rename_fails_example =
    save_rename_fails tagged bad_rename live (some ada) on_disk ((7, ada) ∷ []) written_bytes 28 7
      ada-saved ada-written refl refl

-- A disk that is full.
abbrev full_disk : Faults ℕ
full_disk = record no_faults { write = some 5 }

save-full : save tagged full_disk live (some ada) on_disk ≡ (err (of_file 5), on_disk)
unfolding save read_locked write_locked write_temporary parse put
save-full = refl
