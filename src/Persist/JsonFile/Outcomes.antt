-- ===== src/Persist/JsonFile/Outcomes.antt =====
-- What a write that fails leaves behind, whichever call of the system failed.
use ginx.Prelude.{
  ℕ, ◌≡◌, ◌⊎◌, inl, inr, Option, none, some, List, arith, Option-cases, Result, ok, err,
  Result-cases,
}
use ginx.GoMap.{get}
use ginx.Persist.Memory.{
  Player, PersistError, of_file, MemoryStore, Context, live, player_not_found,
}
use ginx.Persist.JsonFile.{
  Json, Faults, File, read_locked, write_temporary, replace_file, write_locked, load, save, saved,
  written,
}

module _ {E : Type 0} (json : Json E) (faults : Faults E) where
  -- The file is as it was, or the renaming failed and there is none.
  abbrev pub Survives : File → PersistError E → File → Type 0
  Survives file e file' =
      (file' ≡ file) ⊎ ((file' ≡ none) × ((x : E) × (faults.rename ≡ some x) × (e ≡ of_file x)))

  replace_file-err :
      (bytes : List ℕ) (file file' : File) (e : PersistError E)
      → replace_file json faults bytes file ≡ (err e, file')
      → Survives file e file'
  unfolding replace_file
  replace_file-err bytes none file' e h = elim (Option-cases faults.rename) [
    | inl q ↦ absurd (ground (arith, h, q))
    | inr (x, q) ↦ inr (ground (arith, h, q), (x, q, ground (arith, h, q)))
  ]
  replace_file-err bytes (some old) file' e h = elim (Option-cases faults.remove) [
    | inr (y, p) ↦ inl (ground (arith, h, p))
    | inl p ↦ elim (Option-cases faults.rename) [
      | inl q ↦ absurd (ground (arith, h, p, q))
      | inr (x, q) ↦ inr (ground (arith, h, p, q), (x, q, ground (arith, h, p, q)))
    ]
  ]

  write_locked-err :
      (players : MemoryStore) (file file' : File) (e : PersistError E)
      → write_locked json faults players file ≡ (err e, file')
      → Survives file e file'
  unfolding write_locked
  write_locked-err players file file' e h =
      elim (Result-cases (write_temporary json faults players)) [
        | inr (x, p) ↦ inl (ground (arith, h, p))
        | inl (bytes, p) ↦ replace_file-err bytes file file' e (ground (arith, h, p))
      ]

  written-err :
      (r : Result (PersistError E) MemoryStore) (file file' : File) (e : PersistError E)
      → written json faults r file ≡ (err e, file')
      → Survives file e file'
  written-err (ok players) file file' e h = write_locked-err players file file' e h
  written-err (err x) file file' e h = inl (ground (arith, h))

  -- A save that fails leaves the file as it was, unless the renaming failed: then there is no file.
  pub save-err :
      (ctx : Context) (player : Option Player) (file file' : File) (e : PersistError E)
      → save json faults ctx player file ≡ (err e, file')
      → Survives file e file'
  unfolding save
  save-err ctx player file file' e h =
      written-err (saved json faults ctx player file) file file' e h

  -- If a save has passed its checks and written its temporary file, the old file can be removed
  -- and the renaming fails, then it ends in that error and without a file: no player is found
  -- any more.
  pub save_rename_fails :
      (ctx : Context) (player : Option Player) (file : File) (players : MemoryStore)
      (bytes : List ℕ) (x : E) (k : ℕ)
      → saved json faults ctx player file ≡ ok players
      → write_temporary json faults players ≡ ok bytes
      → faults.remove ≡ none
      → faults.rename ≡ some x
      → (save json faults ctx player file ≡ (err (of_file x), none))
        × (load json faults live k (save json faults ctx player file).1 ≡ err player_not_found)
  unfolding save write_locked replace_file load read_locked get
  save_rename_fails ctx player none players bytes x k s t r n =
      let e : save json faults ctx player none ≡ (err (of_file x), none) =
        ground (arith, s, t, n) in
      (e, ground (arith, e))
  save_rename_fails ctx player (some old) players bytes x k s t r n =
      let e : save json faults ctx player (some old) ≡ (err (of_file x), none) =
        ground (arith, s, t, r, n) in
      (e, ground (arith, e))
