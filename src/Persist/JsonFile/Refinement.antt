-- ===== src/Persist/JsonFile/Refinement.antt =====
-- On a disk without faults the file store does what the memory store does.
use ginx.Prelude.{
  ℕ, ◌≡◌, refl, sym, subst, ◌∙◌, Option, none, some, List, [], ◌∷◌, arith, nat_eq, Result, ok, err,
}
use ginx.GoMap.{get, put, delete}
use ginx.GoMap.Laws.{get-put, get-delete}
use ginx.Persist.Memory.{
  Player, PersistError, MemoryStore, Context, load as load_memory, save as save_memory,
  delete_player as delete_memory,
}
use ginx.Persist.JsonFile.{
  Json, File, read_locked, write_temporary, replace_file, write_locked, load, save, delete_player,
  no_faults, saved, deleted, written,
}

-- Each player that the store has can be written.
abbrev pub AllWritable : (Player → Type 0) → MemoryStore → Type 0
AllWritable IsWritable players = (k : ℕ) (p : Player) → get k players ≡ some p → IsWritable p

-- What is relied on of `encoding/json`, for players that it can write (their text is UTF-8 and their
-- times are in the years that it has): they are encoded, not as nothing, and decoded with the same
-- contents.
pub record ReadsBack {E : Type 0} (json : Json E) (IsWritable : Player → Type 0) : Type 0 where
  pub bytes :
      (players : MemoryStore)
      → AllWritable IsWritable players
      → (b : ℕ) × (bs : List ℕ) × (json.marshal players ≡ ok (b ∷ bs))
  pub same :
      (players : MemoryStore) (bs : List ℕ)
      → AllWritable IsWritable players
      → json.marshal players ≡ ok bs
      → (back : MemoryStore) × (json.unmarshal bs ≡ ok back)
        × ((k : ℕ) → get k back ≡ get k players)

module _ {E : Type 0} (json : Json E) where
  -- The file holds the players.
  pub record Holds (file : File) (players : MemoryStore) : Type 0 where
    pub back : MemoryStore
    pub reads : read_locked json no_faults file ≡ ok back
    pub agrees : (k : ℕ) → get k back ≡ get k players

  -- The file store ends as the memory store does: with the same error and the same file, or with a
  -- file that holds the new players.
  pub Follows :
      File
      → Result (PersistError E) MemoryStore
      → Result (PersistError E) (Unit {0}) × File
      → Type 0
  Follows file (err e) r = r ≡ (err e, file)
  Follows file (ok players) (r, file') = (r ≡ ok tt) × Holds file' players

  no_player : Holds none []
  unfolding read_locked
  no_player = record { back = []; reads = refl; agrees = λ k. refl }

  module _ (IsWritable : Player → Type 0) (reads_back : ReadsBack json IsWritable) where
    written-Follows :
        (back players : MemoryStore) (file : File)
        → AllWritable IsWritable back
        → ((k : ℕ) → get k back ≡ get k players)
        → Follows file (ok players) (written json no_faults (ok back) file)
    unfolding Follows write_locked write_temporary replace_file read_locked
    written-Follows back players none all same =
        let (b, bs, e) = reads_back.bytes back all in
        let (again, f, g) = reads_back.same back (b ∷ bs) all e in
        (
          ground (arith, e),
          record { back = again; reads = ground (arith, e, f); agrees = λ k. g k ∙ same k },
        )
    written-Follows back players (some old) all same =
        let (b, bs, e) = reads_back.bytes back all in
        let (again, f, g) = reads_back.same back (b ∷ bs) all e in
        (
          ground (arith, e),
          record { back = again; reads = ground (arith, e, f); agrees = λ k. g k ∙ same k },
        )

    module _ (file : File) (players : MemoryStore) (h : Holds file players)
        (all : AllWritable IsWritable players) where
      saved_as :
          (r : Result (PersistError E) MemoryStore) (ctx : Context) (player : Option Player)
          → ((p : Player) → player ≡ some p → IsWritable p)
          → save_memory players ctx player ≡ r
          → Follows file r (written json no_faults (saved json no_faults ctx player file) file)
      unfolding save_memory
      saved_as (err e) ctx player w m =
          let q : saved json no_faults ctx player file ≡ err e = ground (arith, m, h.reads) in
          subst (λ x. Follows file (err e) (written json no_faults x file)) (sym q)
            (unfold Follows in refl)
      saved_as (ok new) ctx (some player) w m =
          let e : saved json no_faults ctx (some player) file
              ≡ ok (put player.player_id player h.back) =
            ground (arith, m, h.reads) in
          subst (λ x. Follows file (ok new) (written json no_faults x file)) (sym e)
            (written-Follows (put player.player_id player h.back) new file
              (λ k p g.
                ground (
                  arith,
                  g,
                  get-put k player.player_id player h.back,
                  h.agrees k,
                  all k p,
                  w player,
                ))
              λ k. ground (
                arith,
                m,
                get-put k player.player_id player h.back,
                get-put k player.player_id player players,
                h.agrees k,
              ))
      saved_as (ok new) ctx none w m = absurd (ground (arith, m))

      -- On a disk without faults, with a JSON that reads back what it wrote, a save of a writable
      -- player, to a file that holds the players of a memory store, all writable, ends as the memory
      -- store's save does: with its error and the same file, or with a file that holds its players.
      pub save-Follows :
          (ctx : Context) (player : Option Player)
          → ((p : Player) → player ≡ some p → IsWritable p)
          → Follows file (save_memory players ctx player) (save json no_faults ctx player file)
      unfolding save
      save-Follows ctx player new = saved_as (save_memory players ctx player) ctx player new refl

      deleted_as :
          (r : Result (PersistError E) MemoryStore) (ctx : Context) (id : ℕ)
          → delete_memory players ctx id ≡ r
          → Follows file r (written json no_faults (deleted json no_faults ctx id file) file)
      unfolding delete_memory
      deleted_as (err e) ctx id m =
          let q : deleted json no_faults ctx id file ≡ err e =
            ground (arith, m, h.reads, h.agrees id) in
          subst (λ x. Follows file (err e) (written json no_faults x file)) (sym q)
            (unfold Follows in refl)
      deleted_as (ok new) ctx id m =
          let q : deleted json no_faults ctx id file ≡ ok (delete id h.back) =
            ground (arith, m, h.reads, h.agrees id) in
          subst (λ x. Follows file (ok new) (written json no_faults x file)) (sym q)
            (written-Follows (delete id h.back) new file
              (λ k p g. ground (arith, g, get-delete k id h.back, h.agrees k, all k p))
              λ k. ground (arith, m, get-delete k id h.back, get-delete k id players, h.agrees k))

      -- Under the same conditions a deletion ends as the memory store's deletion does.
      pub delete_player-Follows :
          (ctx : Context) (id : ℕ)
          → Follows file (delete_memory players ctx id) (delete_player json no_faults ctx id file)
      unfolding delete_player
      delete_player-Follows ctx id = deleted_as (delete_memory players ctx id) ctx id refl

  -- Without a fault, a load from a file that holds the players of a memory store gives what the
  -- memory store's load gives.
  pub load-load_memory :
      (file : File) (players : MemoryStore) (ctx : Context) (id : ℕ)
      → Holds file players
      → load json no_faults ctx id file ≡ load_memory players ctx id
  unfolding load load_memory
  load-load_memory file players ctx id h = ground (arith, h.reads, h.agrees id)
