-- ===== src/Tests/Commits.antt =====
-- Transactions of one and two files, with a call that fails.
use dsh_better_edit.Prelude.{
  ℕ, ◌≡◌, refl, true, false, none, some, List, [], ◌∷◌, Str, units, str_eq, ◌==◌, All, Distinct,
  map, arith, NotIn, ◌≢◌, if◌then◌else◌, str_eq-ne,
}
use dsh_better_edit.Text.{lf_end, crlf_end, restore_endings, lf_to_crlf}
use dsh_better_edit.Mutation.{
  World, Env, UndoWriteFile, UndoRecord, UndoRow, write_failed, undo_unavailable,
  persist_undo_and_write, persist_undos, write_files, write_persisted, save_undo, write_undo,
  write_undo_pair, restore, unwrite_all, roll_back, write_text, commit_single,
}
use dsh_better_edit.Mutation.Store.{FailsOnce, SameRows, SameEntries}
use dsh_better_edit.Mutation.Saving.{absolute_path_of}
use dsh_better_edit.Mutation.Writing.{HeldOriginal}
use dsh_better_edit.Mutation.Rollback.{
  persist_undo_and_write-files_kept, commit_single-entries_kept, persist_undo_and_write-undo_first,
}
use dsh_better_edit.Mutation.Commit.{
  IsCommitted, persist_undo_and_write-IsCommitted, persist_undo_and_write-total,
}

-- The call `k` fails, and no other.
abbrev failing : ℕ → Env
failing k = record {
  now = λ n. n;
  fails = λ n. n == k;
  leaves = λ n old new. old;
  snapshot_hash_for = λ content. content;
}

failing-FailsOnce : (k : ℕ) → FailsOnce (failing k)
failing-FailsOnce k m n a b = ground arith

abbrev calm : Env
calm = record {
  now = λ n. n;
  fails = λ n. false;
  leaves = λ n old new. old;
  snapshot_hash_for = λ content. content;
}

abbrev file_a : UndoWriteFile
file_a = record {
  absolute_path = units "a";
  display_path = units "a";
  original_normalized = units "x";
  bom = [];
  original_ending = crlf_end;
  original_hashes = units "AAA" ∷ [];
  result = 121 ∷ 10 ∷ [];
}

abbrev file_b : UndoWriteFile
file_b = record {
  absolute_path = units "b";
  display_path = units "b";
  original_normalized = units "p";
  bom = 0xfeff ∷ [];
  original_ending = lf_end;
  original_hashes = units "BBB" ∷ [];
  result = units "q";
}

abbrev old_undo : UndoRecord
old_undo = record {
  content = units "w";
  bom = [];
  ending = crlf_end;
  hashes = units "CCC" ∷ [];
  result_content = units "x";
}

abbrev old_row : UndoRow
old_row = record { entry = old_undo; updated_at = 0 }

abbrev start : World
start = record {
  files = λ p.
      if str_eq p (units "a")
      then some (units "x")
      else if str_eq p (units "b")
      then some (0xfeff ∷ units "p")
      else none;
  undos = λ p. if str_eq p (units "a") then some old_row else none;
  file_undos = λ p. none;
  calls = 0;
}

abbrev files : List UndoWriteFile
files = file_a ∷ file_b ∷ []

differ : units "a" ≢ units "b"
differ = str_eq-ne (units "a") (units "b") computed
  where
    computed : str_eq (units "a") (units "b") ≡ false
    computed = unfold str_eq in refl

files-Distinct : Distinct (map absolute_path_of files)
files-Distinct = ((differ, tt), (tt, tt))

files-HeldOriginal : All (HeldOriginal start) files
unfolding str_eq restore_endings lf_to_crlf
files-HeldOriginal = (refl, (refl, tt))

-- The second write fails after the first file is written.
breaks : (persist_undo_and_write (failing 9) false files start).thrown ≡ some write_failed
unfolding persist_undo_and_write persist_undos save_undo write_undo write_undo_pair str_eq
    write_persisted write_files write_text
breaks = refl

persist_undo_and_write-files_kept_example :
    (persist_undo_and_write (failing 9) false files start).world.files (units "a")
    ≡ start.files (units "a")
persist_undo_and_write-files_kept_example =
    persist_undo_and_write-files_kept (failing 9) false files start (failing-FailsOnce 9)
      (λ n old new. refl) files-Distinct files-HeldOriginal write_failed breaks (units "a")

single_breaks : (commit_single (failing 9) files start).thrown ≡ some write_failed
unfolding commit_single
single_breaks =
    unfold persist_undo_and_write persist_undos save_undo write_undo write_undo_pair str_eq
      write_persisted write_files write_text in
    refl

commit_single-entries_kept_example :
    SameEntries start (commit_single (failing 9) files start).world (units "a")
    × (NotIn (units "a") (map absolute_path_of files)
        → SameRows start (commit_single (failing 9) files start).world (units "a"))
commit_single-entries_kept_example =
    commit_single-entries_kept (failing 9) files start (failing-FailsOnce 9) (λ n old new. refl)
      files-Distinct write_failed single_breaks (units "a")

-- The entry of the second file cannot be saved.
refuses :
    (persist_undo_and_write (failing 5) false files start).thrown
    ≡ some (undo_unavailable (units "b"))
unfolding persist_undo_and_write persist_undos save_undo write_undo write_undo_pair str_eq
refuses = refl

persist_undo_and_write-undo_first_example :
    (persist_undo_and_write (failing 5) false files start).world.files ≡ start.files
persist_undo_and_write-undo_first_example =
    persist_undo_and_write-undo_first (failing 5) false files start (units "b") refuses

lands : (persist_undo_and_write (failing 40) true files start).thrown ≡ none
unfolding persist_undo_and_write persist_undos save_undo write_undo write_undo_pair str_eq
    write_persisted write_files write_text
lands = refl

abbrev landed : World
landed = (persist_undo_and_write (failing 40) true files start).world

persist_undo_and_write-IsCommitted_example :
    All (IsCommitted (failing 40) landed) files
    × ((p : Str)
        → NotIn p (map absolute_path_of files)
        → (landed.files p ≡ start.files p) × SameRows start landed p)
persist_undo_and_write-IsCommitted_example =
    persist_undo_and_write-IsCommitted (failing 40) true files start (λ n old new. refl)
      files-Distinct lands

persist_undo_and_write-total_example :
    ((persist_undo_and_write calm true files start).thrown ≡ none)
    × All (IsCommitted calm (persist_undo_and_write calm true files start).world) files
    × ((p : Str)
        → NotIn p (map absolute_path_of files)
        → ((persist_undo_and_write calm true files start).world.files p ≡ start.files p)
          × SameRows start (persist_undo_and_write calm true files start).world p)
persist_undo_and_write-total_example =
    persist_undo_and_write-total calm true files start (λ n old new. refl) files-Distinct
      (λ m. refl)

-- The new content of the first file has the file's own line ending.
written_bytes : landed.files (units "a") ≡ some (121 ∷ 13 ∷ 10 ∷ [])
unfolding persist_undo_and_write persist_undos save_undo write_undo write_undo_pair str_eq
    write_persisted write_files write_text restore_endings lf_to_crlf
written_bytes = refl

-- A batch that breaks off leaves the undo entry of the file that it did not write.
batch_leaves_undo :
    (persist_undo_and_write (failing 9) false files start).world.undos (units "b")
    ≡ some (record {
      entry = record {
        content = units "p";
        bom = 0xfeff ∷ [];
        ending = lf_end;
        hashes = units "BBB" ∷ [];
        result_content = units "q";
      };
      updated_at = 5;
    })
unfolding persist_undo_and_write persist_undos save_undo write_undo write_undo_pair str_eq
    write_persisted write_files write_text roll_back unwrite_all restore restore_endings lf_to_crlf
batch_leaves_undo = refl
