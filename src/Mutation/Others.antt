-- ===== src/Mutation/Others.antt =====
-- The rows of paths that a transaction has no file for.
use dsh_better_edit.Prelude.{
  ◌≡◌, refl, sym, ◌∙◌, none, List, [], ◌∷◌, ◌++◌, map, Str, Bool-cases, inl, inr, NotIn, ◌≢◌,
}
use mathlib.Core.Path.{subst}
use dsh_better_edit.Mutation.{
  World, Env, Undo, UndoWriteFile, stamped, file_stamped, file_undo_entry, has_side, write_text,
  original_bytes, write_undo_pair, delete_undo_pair, restore, restore_all, unwrite_all,
  persist_undos,
}
use dsh_better_edit.Mutation.Store.{SameRows, path_of, update_other}
use dsh_better_edit.Mutation.Saving.{
  absolute_path_of, file_of, map-snoc, persist_undos-step, saved_row, saved_file_row, saved_entry,
  saved_world,
}
use dsh_better_edit.Prelude.{NotIn-append, ap}

-- A restore leaves the rows of every other path as they are, whether it fails or not.
restore-other :
    (env : Env) (u : Undo) (w : World) (p : Str) → p ≢ path_of u → SameRows w (restore env u w) p
unfolding restore write_undo_pair delete_undo_pair
restore-other env u w p ne =
    elim (Bool-cases (has_side u.previous (file_undo_entry u.previous_file_undo))) [
      | inl some_side ↦ elim (Bool-cases (env.fails w.calls)) [
        | inl fail ↦ rw (some_side, fail) (refl, refl)
        | inr calm ↦
            rw (some_side, calm)
              (
                update_other w.undos (path_of u) (stamped (env.now w.calls) u.previous) p ne,
                update_other w.file_undos (path_of u)
                    (file_stamped (env.now w.calls) (file_undo_entry u.previous_file_undo)) p ne,
              )
      ]
      | inr no_side ↦ elim (Bool-cases (env.fails w.calls)) [
        | inl fail ↦ rw (no_side, fail) (refl, refl)
        | inr calm ↦
            rw (no_side, calm)
              (
                update_other w.undos (path_of u) none p ne,
                update_other w.file_undos (path_of u) none p ne,
              )
      ]
    ]

pub SameRows-trans : (a b c : World) (p : Str) → SameRows a b p → SameRows b c p → SameRows a c p
SameRows-trans a b c p (x, y) (z, t) = (z ∙ x, t ∙ y)

pub restore_all-other :
    (env : Env) (us : List Undo) (w : World) (p : Str)
    → NotIn p (map path_of us)
    → SameRows w (restore_all env us w) p
unfolding restore_all
restore_all-other env [] w p away = (refl, refl)
restore_all-other env (u ∷ us) w p (ne, away) =
    SameRows-trans w (restore env u w) (restore_all env us (restore env u w)) p
      (restore-other env u w p ne) (restore_all-other env us (restore env u w) p away)

-- Putting files back leaves the rows of every other path as they are.
pub unwrite_all-other :
    (env : Env) (us : List Undo) (w : World) (p : Str)
    → NotIn p (map path_of us)
    → SameRows w (unwrite_all env us w) p
unfolding unwrite_all write_text
unwrite_all-other env [] w p away = (refl, refl)
unwrite_all-other env (u ∷ us) w p (ne, away) =
    let mid : World = (write_text env u.file.absolute_path (original_bytes u.file) w).world in
    SameRows-trans w mid (unwrite_all env us (restore env u mid)) p
      (elim (Bool-cases (env.fails w.calls)) [
        | inl fail ↦ rw fail (refl, refl)
        | inr calm ↦ rw calm (refl, refl)
      ])
      (SameRows-trans mid (restore env u mid) (unwrite_all env us (restore env u mid)) p
        (restore-other env u mid p ne) (unwrite_all-other env us (restore env u mid) p away))

-- The first loop leaves the rows of paths without a file as they are, whichever calls fail.
pub persist_undos-other :
    (env : Env) (fs : List UndoWriteFile) (us : List Undo) (w : World) (p : Str)
    → NotIn p (map absolute_path_of fs)
    → NotIn p (map path_of us)
    → SameRows w (persist_undos env fs us w).world p
persist_undos-other env [] us w p out away = unfold persist_undos in (refl, refl)
persist_undos-other env (f ∷ fs) us w p (ne, out) away = elim (persist_undos-step env f fs us w) [
  | inl same ↦ rw same (
      SameRows-trans w (saved_world env f w)
        (persist_undos env fs (us ++ saved_entry f w ∷ []) (saved_world env f w)).world p
        (
          update_other w.undos f.absolute_path (saved_row env f w) p ne,
          update_other w.file_undos f.absolute_path (saved_file_row env f w) p ne,
        )
        (persist_undos-other env fs (us ++ saved_entry f w ∷ []) (saved_world env f w) p out (
          subst (NotIn p) (sym (map-snoc path_of us (saved_entry f w)))
            (NotIn-append p (map path_of us) (f.absolute_path ∷ []) away (ne, tt)))))
  | inr (v, same, (k, fail, calls, files, undos, file_undos)) ↦ rw same (
      SameRows-trans w v (restore_all env us v) p (ap (λ t. t p) undos, ap (λ t. t p) file_undos)
        (restore_all-other env us v p away))
]

pub map-path_of : (us : List Undo) → map path_of us ≡ map absolute_path_of (map file_of us)
map-path_of [] = refl
map-path_of (u ∷ us) = ap (λ t. path_of u ∷ t) (map-path_of us)
