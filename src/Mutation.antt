-- ===== src/Mutation.antt =====
-- src/mutation.ts and src/undo-edit.ts: the transaction that saves the undo rows of some files, writes the
-- files, and puts everything back when a call fails. The file system and the undo tables are explicit.
pub mod Store
pub mod Saving
pub mod Others
pub mod Writing
pub mod Steps
pub mod Rollback
pub mod Commit
use dsh_better_edit.Prelude.{
  ℕ, zero, suc, ◌+◌, Bool, true, false, ◌||◌, Option, none, some, List, [], ◌∷◌, ◌++◌, Str,
  if◌then◌else◌, str_eq,
}
use dsh_better_edit.Text.{Ending, restore_endings}

-- `UndoRecord`.
pub record UndoRecord : Type 0 where
  pub content : Str
  pub bom : Str
  pub ending : Ending
  pub hashes : List Str
  pub result_content : Str

-- `FileUndoWrite`, the row of the second table with the snapshot's hash and no stamp.
pub record FileUndoWrite : Type 0 where
  pub entry : UndoRecord
  pub snapshot_hash : Option Str

-- A row of the table `undo`, with the stamp of its write.
pub record UndoRow : Type 0 where
  pub entry : UndoRecord
  pub updated_at : ℕ

-- `FileUndoRecord`, a row of the table `file_undo`.
pub record FileUndoRecord : Type 0 where
  pub written : FileUndoWrite
  pub updated_at : ℕ

-- What `getUndo` reads of a row; the stamp is left out.
abbrev pub undo_entry : Option UndoRow → Option UndoRecord
undo_entry none = none
undo_entry (some row) = some row.entry

abbrev pub file_undo_entry : Option FileUndoRecord → Option FileUndoWrite
file_undo_entry none = none
file_undo_entry (some row) = some row.written

-- A row as it is written, with its stamp.
abbrev pub stamped : ℕ → Option UndoRecord → Option UndoRow
stamped stamp none = none
stamped stamp (some entry) = some (record { entry = entry; updated_at = stamp })

abbrev pub file_stamped : ℕ → Option FileUndoWrite → Option FileUndoRecord
file_stamped stamp none = none
file_stamped stamp (some written) = some (record { written = written; updated_at = stamp })

-- What the transaction reads and writes: the files, the rows of the tables `undo` and `file_undo` (as
-- the records that they parse to), and the number of fallible calls made so far.
pub record World : Type 0 where
  pub files : Str → Option Str
  pub undos : Str → Option UndoRow
  pub file_undos : Str → Option FileUndoRecord
  pub calls : ℕ

-- The surroundings: which call fails (a write that throws, a store that is busy, a signal found
-- aborted), what a failed write leaves of a file, the clock at each call, and the hash of a snapshot.
pub record Env : Type 0 where
  pub now : ℕ → ℕ
  pub fails : ℕ → Bool
  pub leaves : ℕ → Option Str → Str → Option Str
  pub snapshot_hash_for : Str → Str

pub record UndoWriteFile : Type 0 where
  pub absolute_path : Str
  pub display_path : Str
  pub original_normalized : Str
  pub bom : Str
  pub original_ending : Ending
  pub original_hashes : List Str
  pub result : Str

abbrev pub update {ℓ} : {A : Type ℓ} → (Str → Option A) → Str → Option A → Str → Option A
update m path value = λ p. if str_eq p path then value else m p

-- One more call was made.
abbrev pub tick : World → World
tick w = record w { calls = suc w.calls }

pub record Attempt : Type 0 where
  pub world : World
  pub threw : Bool

abbrev pub has_side : Option UndoRecord → Option FileUndoWrite → Bool
has_side none none = false
has_side none (some v7) = true
has_side (some legacy) v7 = true

-- Both rows in one transaction of the database, with one new stamp; a failure rolls it back.
unfoldable pub write_undo_pair :
    Env → Str → Option UndoRecord → Option FileUndoWrite → World → Attempt
write_undo_pair env path legacy v7 w =
    if has_side legacy v7
    then (if env.fails w.calls then record { world = tick w; threw = true } else record {
      world = record {
        files = w.files;
        undos = update w.undos path (stamped (env.now w.calls) legacy);
        file_undos = update w.file_undos path (file_stamped (env.now w.calls) v7);
        calls = suc w.calls;
      };
      threw = false;
    })
    else record { world = tick w; threw = true }

unfoldable pub delete_undo_pair : Env → Str → World → Attempt
delete_undo_pair env path w =
    if env.fails w.calls then record { world = tick w; threw = true } else record {
      world = record {
        files = w.files;
        undos = update w.undos path none;
        file_undos = update w.file_undos path none;
        calls = suc w.calls;
      };
      threw = false;
    }

-- What `saveUndo` returns: the world, whether the entry was stored, and what `restore` closes over.
pub record SavedUndo : Type 0 where
  pub world : World
  pub persisted : Bool
  pub previous : Option UndoRecord
  pub previous_file_undo : Option FileUndoRecord

abbrev pub not_persisted : World → SavedUndo
not_persisted w = record {
  world = w;
  persisted = false;
  previous = none;
  previous_file_undo = none;
}

-- The entry that `persistUndoAndWrite` saves for a file.
abbrev pub undo_of : UndoWriteFile → UndoRecord
undo_of f = record {
  content = f.original_normalized;
  bom = f.bom;
  ending = f.original_ending;
  hashes = f.original_hashes;
  result_content = f.result;
}

abbrev pub file_undo_of : Env → UndoWriteFile → FileUndoWrite
file_undo_of env f = record {
  entry = undo_of f;
  snapshot_hash = some (env.snapshot_hash_for f.original_normalized);
}

unfoldable pub write_undo : Env → UndoWriteFile → World → Attempt
write_undo env f w =
    write_undo_pair env f.absolute_path (some (undo_of f)) (some (file_undo_of env f)) w

-- Two reads and a write; a failure of any of them is caught.
unfoldable pub save_undo : Env → UndoWriteFile → World → SavedUndo
save_undo env f w =
    if env.fails w.calls
    then not_persisted (tick w)
    else if env.fails (suc w.calls)
    then not_persisted (tick (tick w))
    else (let wrote = write_undo env f (tick (tick w)) in
        if wrote.threw then not_persisted wrote.world else record {
          world = wrote.world;
          persisted = true;
          previous = undo_entry (w.undos f.absolute_path);
          previous_file_undo = w.file_undos f.absolute_path;
        })

-- An entry of the list `undos`.
pub record Undo : Type 0 where
  pub file : UndoWriteFile
  pub previous : Option UndoRecord
  pub previous_file_undo : Option FileUndoRecord

-- `restore`, whose failures are caught: the entries that were there, with a new stamp.
unfoldable pub restore : Env → Undo → World → World
restore env u w =
    if has_side u.previous (file_undo_entry u.previous_file_undo)
    then (write_undo_pair env u.file.absolute_path u.previous (file_undo_entry u.previous_file_undo)
        w).world
    else (delete_undo_pair env u.file.absolute_path w).world

unfoldable pub restore_all : Env → List Undo → World → World
restore_all env [] w = w
restore_all env (u ∷ us) w = restore_all env us (restore env u w)

pub data CommitError : Type 0 where
  undo_unavailable : Str → CommitError
  write_failed : CommitError

-- What the first loop ends with.
pub record Persisted : Type 0 where
  pub world : World
  pub undos : List Undo
  pub refused : Option Str

unfoldable pub persist_undos : Env → List UndoWriteFile → List Undo → World → Persisted
persist_undos env [] undos w = record { world = w; undos = undos; refused = none }
persist_undos env (f ∷ fs) undos w =
    let undo = save_undo env f w in
    elim undo.persisted [
      | false ↦ record {
        world = restore_all env undos undo.world;
        undos = undos;
        refused = some f.display_path;
      }
      | true ↦
          let entry : Undo = record {
            file = f;
            previous = undo.previous;
            previous_file_undo = undo.previous_file_undo;
          } in
          persist_undos env fs (undos ++ entry ∷ []) undo.world
    ]

abbrev pub original_bytes : UndoWriteFile → Str
original_bytes f = f.bom ++ restore_endings f.original_normalized f.original_ending

abbrev pub result_bytes : UndoWriteFile → Str
result_bytes f = f.bom ++ restore_endings f.result f.original_ending

-- `io.writeText`.
unfoldable pub write_text : Env → Str → Str → World → Attempt
write_text env path text w =
    if env.fails w.calls
    then record {
      world = record {
        files = update w.files path (env.leaves w.calls (w.files path) text);
        undos = w.undos;
        file_undos = w.file_undos;
        calls = suc w.calls;
      };
      threw = true;
    }
    else record {
      world = record {
        files = update w.files path (some text);
        undos = w.undos;
        file_undos = w.file_undos;
        calls = suc w.calls;
      };
      threw = false;
    }

-- What the second loop ends with; `unwritten` is the rest of the list from the file that threw.
pub record Written : Type 0 where
  pub world : World
  pub written : List Undo
  pub unwritten : List Undo
  pub threw : Bool

-- The check of the signal and the write, for each file in order.
unfoldable pub write_files : Env → List Undo → List Undo → World → Written
write_files env [] written w = record {
  world = w;
  written = written;
  unwritten = [];
  threw = false;
}
write_files env (u ∷ us) written w =
    if env.fails w.calls
    then record { world = tick w; written = written; unwritten = u ∷ us; threw = true }
    else (let attempt = write_text env u.file.absolute_path (result_bytes u.file) (tick w) in
        elim attempt.threw [
          | true ↦ record {
            world = attempt.world;
            written = written;
            unwritten = u ∷ us;
            threw = true;
          }
          | false ↦ write_files env us (written ++ u ∷ []) attempt.world
        ])

-- The written files and their undo entries are put back, each failure caught.
unfoldable pub unwrite_all : Env → List Undo → World → World
unwrite_all env [] w = w
unwrite_all env (u ∷ us) w =
    let back = write_text env u.file.absolute_path (original_bytes u.file) w in
    unwrite_all env us (restore env u back.world)

unfoldable pub roll_back : Env → Bool → List Undo → List Undo → World → World
roll_back env restore_unwritten_undos written unwritten w =
    let back = unwrite_all env written w in
    if restore_unwritten_undos then restore_all env unwritten back else back

pub record CommitOutcome : Type 0 where
  pub world : World
  pub thrown : Option CommitError

unfoldable pub write_persisted : Env → Bool → List Undo → World → CommitOutcome
write_persisted env restore_unwritten_undos undos w =
    let done = write_files env undos [] w in
    if done.threw
    then record {
      world = roll_back env restore_unwritten_undos done.written done.unwritten done.world;
      thrown = some write_failed;
    }
    else record { world = done.world; thrown = none }

unfoldable pub persist_undo_and_write : Env → Bool → List UndoWriteFile → World → CommitOutcome
persist_undo_and_write env restore_unwritten_undos files w =
    let saved = persist_undos env files [] w in
    elim saved.refused [
      | some path ↦ record { world = saved.world; thrown = some (undo_unavailable path) }
      | none ↦ write_persisted env restore_unwritten_undos saved.undos saved.world
    ]

unfoldable pub commit_single : Env → List UndoWriteFile → World → CommitOutcome
commit_single env files w = persist_undo_and_write env true files w

unfoldable pub commit_batch : Env → List UndoWriteFile → World → CommitOutcome
commit_batch env files w = persist_undo_and_write env false files w
