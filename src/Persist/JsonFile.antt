-- ===== src/Persist/JsonFile.antt =====
-- persist/json_file.go: the same players, all of them in one file of JSON. `encoding/json` is a
-- parameter. A file that does not exist is `none`; what goes wrong on the disk in one call is an
-- argument, a fault for each of the system's calls. The temporary file is gone after each call.
pub mod Outcomes
pub mod Refinement
mod Examples
use ginx.Prelude.{
  ℕ, not, Option, none, some, List, [], ◌∷◌, nat_eq, Result, ok, err, ◌>>=◌, ◌>>◌, reject, or_fail,
}
use ginx.GoMap.{get, put, delete, has}
use ginx.Persist.Memory.{
  Player, PersistError, of_file, MemoryStore, Context, context_error, valid, player_not_found,
}

abbrev pub File : Type 0
File = Option (List ℕ)

-- The error of each call of the system, if it fails; `remove` does so on a file that exists.
pub record Faults (E : Type 0) : Type 0 where
  pub read_file : Option E
  pub mkdir_all : Option E
  pub create_temp : Option E
  pub write : Option E
  pub close : Option E
  pub remove : Option E
  pub rename : Option E

abbrev pub no_faults : {E : Type 0} → Faults E
no_faults = record {
  read_file = none;
  mkdir_all = none;
  create_temp = none;
  write = none;
  close = none;
  remove = none;
  rename = none;
}

abbrev pub unless : {E : Type 0} → Option E → Result (PersistError E) (Unit {0})
unless none = ok tt
unless (some e) = err (of_file e)

pub record Json (E : Type 0) : Type 0 where
  pub marshal : MemoryStore → Result E (List ℕ)
  pub unmarshal : List ℕ → Result E MemoryStore

abbrev pub json_result {ℓ} : {E : Type 0} {A : Type ℓ} → Result E A → Result (PersistError E) A
json_result (ok a) = ok a
json_result (err e) = err (of_file e)

module _ {E : Type 0} (json : Json E) (faults : Faults E) where
  -- A file that does not exist or is empty holds no player.
  pub read_locked : File → Result (PersistError E) MemoryStore
  read_locked none = ok []
  read_locked (some []) = unless faults.read_file >> ok []
  read_locked (some (b ∷ bs)) = unless faults.read_file >> json_result (json.unmarshal (b ∷ bs))

  -- What comes before the old file is touched: the new contents, in a temporary file.
  pub write_temporary : MemoryStore → Result (PersistError E) (List ℕ)
  write_temporary players = do
    bytes ← json_result (json.marshal players)
    unless faults.mkdir_all
    unless faults.create_temp
    unless faults.write
    unless faults.close
    ok bytes

  -- The old file is removed and the temporary one renamed. A missing file is no error.
  pub replace_file : List ℕ → File → Result (PersistError E) (Unit {0}) × File
  replace_file bytes none = elim faults.rename [
    | none ↦ (ok tt, some bytes)
    | some e ↦ (err (of_file e), none)
  ]
  replace_file bytes (some old) = elim faults.remove [
    | some e ↦ (err (of_file e), some old)
    | none ↦ elim faults.rename [ none ↦ (ok tt, some bytes) | some e ↦ (err (of_file e), none) ]
  ]

  pub write_locked : MemoryStore → File → Result (PersistError E) (Unit {0}) × File
  unfolding write_temporary replace_file
  write_locked players file = elim (write_temporary players) [
    | err e ↦ (err e, file)
    | ok bytes ↦ replace_file bytes file
  ]

  pub load : Context → ℕ → File → Result (PersistError E) Player
  unfolding read_locked
  load ctx player_id file = do
    context_error ctx
    players ← read_locked file
    or_fail (get player_id players) player_not_found

  -- The players as they are to be written.
  abbrev saved : Context → Option Player → File → Result (PersistError E) MemoryStore
  saved ctx player file = do
    context_error ctx
    value ← valid player
    players ← read_locked file
    ok (put value.player_id value players)

  abbrev deleted : Context → ℕ → File → Result (PersistError E) MemoryStore
  deleted ctx player_id file = do
    context_error ctx
    players ← read_locked file
    reject (not (has player_id players)) player_not_found
    ok (delete player_id players)

  abbrev written :
      Result (PersistError E) MemoryStore → File → Result (PersistError E) (Unit {0}) × File
  written (err e) file = (err e, file)
  written (ok players) file = write_locked players file

  pub save : Context → Option Player → File → Result (PersistError E) (Unit {0}) × File
  save ctx player file = written (saved ctx player file) file

  pub delete_player : Context → ℕ → File → Result (PersistError E) (Unit {0}) × File
  delete_player ctx player_id file = written (deleted ctx player_id file) file
