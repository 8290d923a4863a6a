-- ===== src/Mutation/Commit.antt =====
-- A transaction that does not throw did all that it was asked for.
use mathlib.Core.Path.{subst}
use dsh_better_edit.Prelude.{
  ℕ, ◌≡◌, refl, ap, sym, ◌∙◌, Bool, true, false, none, some, List, [], ◌∷◌, ◌++◌, map, Str, inl,
  inr, NotIn, All, Distinct,
}
use dsh_better_edit.Mutation.{
  World, Env, Undo, CommitError, UndoWriteFile, tick, undo_of, file_undo_of, stamped, file_stamped,
  result_bytes, persist_undo_and_write, persist_undos, write_files,
}
use dsh_better_edit.Mutation.Steps.{saving, writing, run-cases}
use dsh_better_edit.Mutation.Store.{WritesWhole, SameRows, path_of}
use dsh_better_edit.Mutation.Saving.{
  IsRecorded, persist_undos-step, saved_entry, saved_world, absolute_path_of, file_of,
}
use dsh_better_edit.Mutation.Writing.{
  HasLanded, write_files-step, wrote_world, IsWriting, write_files-landed,
}
use dsh_better_edit.Mutation.Others.{map-path_of}
use dsh_better_edit.Mutation.Rollback.{saved-IsSaving, start-IsWriting, start-AreAway}

-- A file holds its new content, and both undo tables hold its row, with one stamp.
abbrev pub IsCommitted : Env → World → UndoWriteFile → Type 0
IsCommitted env w f =
    (w.files f.absolute_path ≡ some (result_bytes f))
    × ((t : ℕ) × (w.undos f.absolute_path ≡ stamped t (some (undo_of f)))
        × (w.file_undos f.absolute_path ≡ file_stamped t (some (file_undo_of env f))))

-- Entries recorded in the first loop and written in the second are committed.
committed :
    (env : Env) (v w : World) (us : List Undo)
    → w.undos ≡ v.undos
    → w.file_undos ≡ v.file_undos
    → All (IsRecorded env v) us
    → All (HasLanded w) us
    → All (IsCommitted env w) (map file_of us)
committed env v w [] e f r h = tt
committed env v w (u ∷ us) e f ((t, a, b), r) (l, h) = (
  (l, (t, ap (λ x. x (path_of u)) e ∙ a, ap (λ x. x (path_of u)) f ∙ b)),
  committed env v w us e f r h,
)

-- The files are committed in the world that both loops end in, and no other path changed.
abbrev AreCommitted : Env → List UndoWriteFile → World → World → Type 0
AreCommitted env fs w v =
    All (IsCommitted env v) fs
    × ((p : Str) → NotIn p (map absolute_path_of fs) → (v.files p ≡ w.files p) × SameRows w v p)

landed_end-AreCommitted :
    (env : Env) (flag : Bool) (fs : List UndoWriteFile) (w : World)
    → WritesWhole env
    → Distinct (map absolute_path_of fs)
    → (saving env flag fs w).refused ≡ none
    → (writing env flag fs w).threw ≡ false
    → AreCommitted env fs w (writing env flag fs w).world
landed_end-AreCommitted env flag fs w whole distinct e t =
    let (s, same) = saved-IsSaving env flag fs w whole distinct e in
    let us : List Undo = (saving env flag fs w).undos in
    let v : World = (saving env flag fs w).world in
    let l : IsWriting v us (writing env flag fs w).world =
      write_files-landed env v us [] v whole (start-IsWriting v)
        (subst (λ x. Distinct (map absolute_path_of x)) (sym same) distinct)
        (start-AreAway (map file_of us)) t in
    let all : All (IsCommitted env (writing env flag fs w).world) (map file_of us) =
      committed env v (writing env flag fs w).world us l.undos_same l.file_undos_same s.recorded
        l.landed in
    (
      subst (All (IsCommitted env (writing env flag fs w).world)) same all,
      λ p out.
          let away : NotIn p (map path_of us) =
            subst (NotIn p) (ap (map absolute_path_of) (sym same) ∙ sym (map-path_of us)) out in
          let rows : SameRows w v p = s.others p away in
          (
            l.others p away ∙ ap (λ x. x p) s.files_same,
            (ap (λ x. x p) l.undos_same ∙ rows.0, ap (λ x. x p) l.file_undos_same ∙ rows.1),
          ),
    )

-- A transaction that does not throw has written every file and saved its undo rows, and has changed
-- nothing at any other path, where a failed write leaves its file alone and the files are distinct.
pub persist_undo_and_write-IsCommitted :
    (env : Env) (flag : Bool) (fs : List UndoWriteFile) (w : World)
    → WritesWhole env
    → Distinct (map absolute_path_of fs)
    → (persist_undo_and_write env flag fs w).thrown ≡ none
    → All (IsCommitted env (persist_undo_and_write env flag fs w).world) fs
      × ((p : Str)
          → NotIn p (map absolute_path_of fs)
          → ((persist_undo_and_write env flag fs w).world.files p ≡ w.files p)
            × SameRows w (persist_undo_and_write env flag fs w).world p)
persist_undo_and_write-IsCommitted env flag fs w whole distinct done =
    elim (run-cases env flag fs w) [
      | inl (path, end, e) ↦ absurd (some-ne (sym (ap (λ r. r.thrown) end) ∙ done))
      | inr (inl (end, e, t)) ↦ absurd (some-ne (sym (ap (λ r. r.thrown) end) ∙ done))
      | inr (inr (end, e, t)) ↦ rw end (landed_end-AreCommitted env flag fs w whole distinct e t)
    ]
  where
    some-ne : {a : CommitError} → some a ≡ none → ⊥
    some-ne q = cc

module _ (env : Env) (never : (m : ℕ) → env.fails m ≡ false) where
  no_failure : {A : Type 0} (k : ℕ) → env.fails k ≡ true → A
  no_failure k fail = absurd (false-ne-true (sym (never k) ∙ fail))
    where
      false-ne-true : false ≡ true → ⊥
      false-ne-true p = cc

  persist_undos-accepts :
      (fs : List UndoWriteFile) (us : List Undo) (w : World)
      → (persist_undos env fs us w).refused ≡ none
  persist_undos-accepts [] us w = unfold persist_undos in refl
  persist_undos-accepts (f ∷ fs) us w = elim (persist_undos-step env f fs us w) [
    | inl same ↦
        rw same (persist_undos-accepts fs (us ++ saved_entry f w ∷ []) (saved_world env f w))
    | inr (v, same, stop) ↦ no_failure stop.0 stop.1
  ]

  write_files-ends :
      (us written : List Undo) (w : World)
      → WritesWhole env
      → (write_files env us written w).threw ≡ false
  write_files-ends [] written w whole = unfold write_files in refl
  write_files-ends (u ∷ us) written w whole = elim (write_files-step env u us written w whole) [
    | inl same ↦ rw same (
        write_files-ends us (written ++ u ∷ [])
          (wrote_world (path_of u) (result_bytes u.file) (tick w)) whole)
    | inr (v, same, stop) ↦ no_failure stop.0 stop.1
  ]

no_failure_thrown :
    (env : Env) (flag : Bool) (fs : List UndoWriteFile) (w : World)
    → WritesWhole env
    → ((m : ℕ) → env.fails m ≡ false)
    → (persist_undo_and_write env flag fs w).thrown ≡ none
no_failure_thrown env flag fs w whole never = elim (run-cases env flag fs w) [
  | inl (path, end, e) ↦ absurd (some-ne (sym e ∙ persist_undos-accepts env never fs [] w))
  | inr (inl (end, e, t)) ↦ absurd (
      true-ne (
        sym t
        ∙ write_files-ends env never (saving env flag fs w).undos [] (saving env flag fs w).world
            whole))
  | inr (inr (end, e, t)) ↦ ap (λ r. r.thrown) end
]
  where
    some-ne : {a : Str} → some a ≡ none → ⊥
    some-ne q = cc

    true-ne : true ≡ false → ⊥
    true-ne q = cc

-- A transaction none of whose calls fails does not throw, and it has written every file, saved its undo
-- rows and changed nothing at any other path, where the files are distinct.
pub persist_undo_and_write-total :
    (env : Env) (flag : Bool) (fs : List UndoWriteFile) (w : World)
    → WritesWhole env
    → Distinct (map absolute_path_of fs)
    → ((m : ℕ) → env.fails m ≡ false)
    → ((persist_undo_and_write env flag fs w).thrown ≡ none)
      × All (IsCommitted env (persist_undo_and_write env flag fs w).world) fs
      × ((p : Str)
          → NotIn p (map absolute_path_of fs)
          → ((persist_undo_and_write env flag fs w).world.files p ≡ w.files p)
            × SameRows w (persist_undo_and_write env flag fs w).world p)
persist_undo_and_write-total env flag fs w whole distinct never =
    let quiet = no_failure_thrown env flag fs w whole never in
    let (all, frame) = persist_undo_and_write-IsCommitted env flag fs w whole distinct quiet in
    (quiet, all, frame)
