-- ===== src/Mutation/Steps.antt =====
-- The three ends of a transaction: an undo entry is refused, a write breaks off, or all files are written.
use dsh_better_edit.Prelude.{
  ◌≡◌, refl, ap, ◌∙◌, Bool, true, false, Option, none, some, List, [], Str, Bool-cases,
  Option-cases, ◌⊎◌, inl, inr, if◌then◌else◌,
}
use dsh_better_edit.Mutation.{
  World, Env, UndoWriteFile, Written, undo_unavailable, write_failed, CommitOutcome, Persisted,
  roll_back, write_files, write_persisted, persist_undos, persist_undo_and_write,
}

module _ (env : Env) (flag : Bool) (fs : List UndoWriteFile) (w : World) where
  -- What the two loops end with.
  abbrev pub saving : Persisted
  saving = persist_undos env fs [] w

  abbrev pub writing : Written
  writing = write_files env saving.undos [] saving.world

  abbrev pub refused_end : Str → CommitOutcome
  refused_end path = record { world = saving.world; thrown = some (undo_unavailable path) }

  abbrev pub broken_end : CommitOutcome
  broken_end = record {
    world = roll_back env flag writing.written writing.unwritten writing.world;
    thrown = some write_failed;
  }

  abbrev pub landed_end : CommitOutcome
  landed_end = record { world = writing.world; thrown = none }

  abbrev after_saving : Option Str → CommitOutcome
  after_saving (some path) = refused_end path
  after_saving none = write_persisted env flag saving.undos saving.world

  run_split : persist_undo_and_write env flag fs w ≡ after_saving saving.refused
  unfolding persist_undo_and_write
  run_split =
      elim saving.refused
        as (λ r.
          (elim r [
            | some path ↦ refused_end path
            | none ↦ write_persisted env flag saving.undos saving.world
          ])
          ≡ after_saving r) [ none ↦ refl | some path ↦ refl ]

  written_split :
      write_persisted env flag saving.undos saving.world
      ≡ (if writing.threw then broken_end else landed_end)
  unfolding write_persisted
  written_split = refl

  pub run-cases :
      ((path : Str) × (persist_undo_and_write env flag fs w ≡ refused_end path)
        × (saving.refused ≡ some path))
      ⊎ (((persist_undo_and_write env flag fs w ≡ broken_end)
            × (saving.refused ≡ none)
            × (writing.threw ≡ true))
          ⊎ ((persist_undo_and_write env flag fs w ≡ landed_end)
              × (saving.refused ≡ none)
              × (writing.threw ≡ false)))
  run-cases = elim (Option-cases saving.refused) [
    | inr (path, e) ↦ inl (path, run_split ∙ ap after_saving e, e)
    | inl e ↦ elim (Bool-cases writing.threw) [
      | inl t ↦ inr (inl (run_split ∙ ap after_saving e ∙ written_split ∙ ap choose t, e, t))
      | inr t ↦ inr (inr (run_split ∙ ap after_saving e ∙ written_split ∙ ap choose t, e, t))
    ]
  ]
    where
      choose : Bool → CommitOutcome
      choose b = if b then broken_end else landed_end
