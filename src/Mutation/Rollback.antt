-- ===== src/Mutation/Rollback.antt =====
-- A transaction that fails leaves what it found.
use mathlib.Core.Path.{subst}
use mathlib.Core.List.{map-append}
use dsh_better_edit.Prelude.{
  ◌≡◌, refl, ap, sym, ◌∙◌, Bool, true, none, some, List, [], ◌∷◌, ◌++◌, map, Str, Bool-cases, inl,
  inr, NotIn, All, Distinct, arith,
}
use dsh_better_edit.Mutation.{
  World, Env, Undo, UndoWriteFile, Written, CommitError, undo_unavailable, write_failed,
  unwrite_all, roll_back, restore_all, persist_undo_and_write, commit_single,
}
use dsh_better_edit.Mutation.Steps.{saving, writing, run-cases}
use dsh_better_edit.Mutation.Store.{
  Calm, FailsOnce, FailsOnce-Calm, WritesWhole, SameRows, SameEntries, SameRows-SameEntries,
  path_of, Holds, restore_all-files, restore_all-rows,
}
use dsh_better_edit.Mutation.Saving.{
  IsSaving, AreAway, NotIn-left, NotIn-right, file_of, absolute_path_of, persist_undos-saved,
  persist_undos-refused, persist_undos-files,
}
use dsh_better_edit.Mutation.Others.{
  SameRows-trans, restore_all-other, unwrite_all-other, persist_undos-other, map-path_of,
}
use dsh_better_edit.Mutation.Writing.{
  IsWriting, IsBroken, HeldOriginal, write_files-IsBroken, unwrite_all-files, unwrite_all-rows,
  unwrite_all-calls,
}

All-prefix {ℓ κ} : {A : Type ℓ} (P : A → Type κ) (xs ys : List A) → All P (xs ++ ys) → All P xs
All-prefix P [] ys h = tt
All-prefix P (x ∷ xs) ys (p, h) = (p, All-prefix P xs ys h)

All-suffix {ℓ κ} : {A : Type ℓ} (P : A → Type κ) (xs ys : List A) → All P (xs ++ ys) → All P ys
All-suffix P [] ys h = h
All-suffix P (x ∷ xs) ys (p, h) = All-suffix P xs ys h

-- A transaction that has saved nothing.
pub start-IsSaving : (env : Env) (w : World) → IsSaving env w [] w
start-IsSaving env w = record {
  files_same = refl;
  holds = tt;
  recorded = tt;
  others = λ p h. (refl, refl);
}

pub start-AreAway : (fs : List UndoWriteFile) → AreAway [] fs
start-AreAway [] = tt
start-AreAway (f ∷ fs) = (tt, start-AreAway fs)

pub start-IsWriting : (w : World) → IsWriting w [] w
start-IsWriting w = record {
  undos_same = refl;
  file_undos_same = refl;
  landed = tt;
  others = λ p h. refl;
}

-- A property of the files of the entries is one of the entries.
All-file_of {κ} :
    (P : UndoWriteFile → Type κ) (us : List Undo)
    → All P (map file_of us)
    → All (λ (u : Undo). P u.file) us
All-file_of P [] h = tt
All-file_of P (u ∷ us) (p, h) = (p, All-file_of P us h)

module _ (env : Env) (v : World) (once : FailsOnce env) where
  -- The roll back of a broken second loop puts the files back, and the rows with `restore_unwritten_undos`.
  roll_back-files :
      (flag : Bool) (us : List Undo) (w : World) (r : Written)
      → IsSaving env v us w
      → All (λ (u : Undo). HeldOriginal v u.file) us
      → IsBroken env w us r
      → (p : Str) → (roll_back env flag r.written r.unwritten r.world).files p ≡ v.files p
  unfolding roll_back
  roll_back-files flag us w r s held b p =
      let (k, fail, calls) = b.failed in
      let back : (unwrite_all env r.written r.world).files p ≡ v.files p =
        unwrite_all-files env v r.written r.world
          (λ m le. FailsOnce-Calm env k once fail m (omega (arith, calls)))
          (All-prefix (λ (u : Undo). HeldOriginal v u.file) r.written r.unwritten
            (subst (All (λ (u : Undo). HeldOriginal v u.file)) (sym b.split) held))
          (λ q away. b.others q away ∙ ap (λ t. t q) s.files_same) p in
      elim (Bool-cases flag) [
        | inl yes_all ↦ rw yes_all (
            ap (λ t. t p) (restore_all-files env r.unwritten (unwrite_all env r.written r.world))
            ∙ back)
        | inr no_rest ↦ rw no_rest back
      ]

  roll_back-rows :
      (us : List Undo) (w : World) (r : Written)
      → IsSaving env v us w
      → IsBroken env w us r
      → (p : Str) → SameEntries v (roll_back env true r.written r.unwritten r.world) p
  unfolding roll_back
  roll_back-rows us w r s b p =
      let (k, fail, calls) = b.failed in
      let calm : Calm env r.world.calls =
        λ m le. FailsOnce-Calm env k once fail m (omega (arith, calls)) in
      let all : All (Holds v) (r.written ++ r.unwritten) =
        subst (All (Holds v)) (sym b.split) s.holds in
      restore_all-rows env v r.unwritten (unwrite_all env r.written r.world)
        (λ m le. calm m (omega (arith, unwrite_all-calls env r.written r.world calm)))
        (All-suffix (Holds v) r.written r.unwritten all)
        (unwrite_all-rows env v r.written (map path_of r.unwritten) r.world calm
          (All-prefix (Holds v) r.written r.unwritten all)
          (λ q away.
            let same : SameRows v w q = s.others q (
              subst (NotIn q)
                (sym (map-append path_of r.written r.unwritten) ∙ ap (map path_of) b.split) away) in
            SameRows-SameEntries v r.world q
              (ap (λ t. t q) b.undos_same ∙ same.0, ap (λ t. t q) b.file_undos_same ∙ same.1)))
        p

  -- The roll back leaves the rows of other paths as they are.
  roll_back-other :
      (us : List Undo) (w : World) (r : Written)
      → IsSaving env v us w
      → IsBroken env w us r
      → (p : Str) → NotIn p (map path_of us)
      → SameRows v (roll_back env true r.written r.unwritten r.world) p
  unfolding roll_back
  roll_back-other us w r s b p away =
      let parts : NotIn p (map path_of r.written ++ map path_of r.unwritten) =
        subst (NotIn p) (ap (map path_of) (sym b.split) ∙ map-append path_of r.written r.unwritten)
          away in
      let back : World = unwrite_all env r.written r.world in
      SameRows-trans v r.world (restore_all env r.unwritten back) p
        (
          ap (λ t. t p) b.undos_same ∙ (s.others p away).0,
          ap (λ t. t p) b.file_undos_same ∙ (s.others p away).1,
        )
        (SameRows-trans r.world back (restore_all env r.unwritten back) p
          (unwrite_all-other env r.written r.world p
            (NotIn-left p (map path_of r.written) (map path_of r.unwritten) parts))
          (restore_all-other env r.unwritten back p
            (NotIn-right p (map path_of r.written) (map path_of r.unwritten) parts)))

-- What a failed transaction says of its two loops.
module _ (env : Env) (flag : Bool) (fs : List UndoWriteFile) (w : World) (whole : WritesWhole env)
    (distinct : Distinct (map absolute_path_of fs))
    (e : (saving env flag fs w).refused ≡ none) where
  pub saved-IsSaving :
      IsSaving env w (saving env flag fs w).undos (saving env flag fs w).world
      × (map file_of (saving env flag fs w).undos ≡ fs)
  saved-IsSaving =
      persist_undos-saved env w fs [] w (start-IsSaving env w) distinct (start-AreAway fs) e

  saved-IsBroken :
      (writing env flag fs w).threw ≡ true
      → IsBroken env
          (saving env flag fs w).world
          (saving env flag fs w).undos
          (writing env flag fs w)
  saved-IsBroken threw =
      write_files-IsBroken env (saving env flag fs w).world (saving env flag fs w).undos []
        (saving env flag fs w).world whole (start-IsWriting (saving env flag fs w).world)
        (subst (λ t. Distinct (map absolute_path_of t)) (sym saved-IsSaving.1) distinct)
        (start-AreAway (map file_of (saving env flag fs w).undos)) threw

-- A transaction that throws leaves each file as it was, where at most one call fails, a failed write
-- leaves its file alone, the files are distinct, and each held its normalised content with its byte
-- order mark and its line ending.
pub persist_undo_and_write-files_kept :
    (env : Env) (flag : Bool) (fs : List UndoWriteFile) (w : World)
    → FailsOnce env
    → WritesWhole env
    → Distinct (map absolute_path_of fs)
    → All (HeldOriginal w) fs
    → (reason : CommitError) → (persist_undo_and_write env flag fs w).thrown ≡ some reason
    → (p : Str) → (persist_undo_and_write env flag fs w).world.files p ≡ w.files p
persist_undo_and_write-files_kept env flag fs w once whole distinct held reason thrown p =
    elim (run-cases env flag fs w) [
      | inl (path, end, e) ↦ rw end (ap (λ t. t p) (persist_undos-files env fs [] w))
      | inr (inl (end, e, t)) ↦
          let saved = saved-IsSaving env flag fs w whole distinct e in
          rw end (
            roll_back-files env w once flag (saving env flag fs w).undos
              (saving env flag fs w).world (writing env flag fs w) saved.0
              (All-file_of (HeldOriginal w) (saving env flag fs w).undos
                (subst (All (HeldOriginal w)) (sym saved.1) held))
              (saved-IsBroken env flag fs w whole distinct e t) p)
      | inr (inr (end, e, t)) ↦ absurd (none-ne-some (sym (ap (λ r. r.thrown) end) ∙ thrown))
    ]
  where
    none-ne-some : none ≡ some reason → ⊥
    none-ne-some q = cc

-- A single commit that throws also leaves the contents of both undo tables as they were, where at most
-- one call fails, a failed write leaves its file alone and the files are distinct. The rows that it puts
-- back have a new stamp, which is not part of the content; a path of none of the files keeps its rows
-- with their stamps.
pub commit_single-entries_kept :
    (env : Env) (fs : List UndoWriteFile) (w : World)
    → FailsOnce env
    → WritesWhole env
    → Distinct (map absolute_path_of fs)
    → (reason : CommitError) → (commit_single env fs w).thrown ≡ some reason
    → (p : Str)
    → SameEntries w (commit_single env fs w).world p
      × (NotIn p (map absolute_path_of fs) → SameRows w (commit_single env fs w).world p)
unfolding commit_single
commit_single-entries_kept env fs w once whole distinct reason thrown p =
    elim (run-cases env true fs w) [
      | inl (path, end, e) ↦ rw end (
        persist_undos-refused env w fs [] w path once (start-IsSaving env w) distinct
            (start-AreAway fs) e p,
        λ out. persist_undos-other env fs [] w p out tt,
      )
      | inr (inl (end, e, t)) ↦
          let saved = saved-IsSaving env true fs w whole distinct e in
          let us : List Undo = (saving env true fs w).undos in
          let broken = saved-IsBroken env true fs w whole distinct e t in
          rw end (
            roll_back-rows env w once us (saving env true fs w).world (writing env true fs w)
                saved.0 broken p,
            λ out.
                roll_back-other env w once us (saving env true fs w).world (writing env true fs w)
                  saved.0 broken p
                  (subst (NotIn p) (ap (map absolute_path_of) (sym saved.1) ∙ sym (map-path_of us))
                    out),
          )
      | inr (inr (end, e, t)) ↦ absurd (none-ne-some (sym (ap (λ r. r.thrown) end) ∙ thrown))
    ]
  where
    none-ne-some : none ≡ some reason → ⊥
    none-ne-some q = cc

-- A transaction that cannot save an undo entry writes no file, whichever calls fail.
pub persist_undo_and_write-undo_first :
    (env : Env) (flag : Bool) (fs : List UndoWriteFile) (w : World) (path : Str)
    → (persist_undo_and_write env flag fs w).thrown ≡ some (undo_unavailable path)
    → (persist_undo_and_write env flag fs w).world.files ≡ w.files
persist_undo_and_write-undo_first env flag fs w path thrown = elim (run-cases env flag fs w) [
  | inl (other, end, e) ↦ rw end (persist_undos-files env fs [] w)
  | inr (inl (end, e, t)) ↦ absurd (failed-ne (sym (ap (λ r. r.thrown) end) ∙ thrown))
  | inr (inr (end, e, t)) ↦ absurd (none-ne (sym (ap (λ r. r.thrown) end) ∙ thrown))
]
  where
    failed-ne : some write_failed ≡ some (undo_unavailable path) → ⊥
    failed-ne q = cc

    none-ne : none ≡ some (undo_unavailable path) → ⊥
    none-ne q = cc
