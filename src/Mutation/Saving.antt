-- ===== src/Mutation/Saving.antt =====
-- The first loop of the transaction, which saves the undo entries.
use dsh_better_edit.Prelude.{
  ℕ, suc, ◌≡◌, refl, ap, sym, ◌∙◌, true, false, Option, none, some, List, [], ◌∷◌, ◌++◌, map, Str,
  Bool-cases, ◌⊎◌, inl, inr, NotIn, All, Distinct, arith, ◌≢◌, NotIn-append,
}
use mathlib.Core.Path.{subst}
use mathlib.Core.List.{append-nil, append_assoc}
use dsh_better_edit.Mutation.{
  World, Env, Undo, UndoRow, FileUndoRecord, stamped, file_stamped, undo_entry, UndoWriteFile,
  SavedUndo, Persisted, update, tick, undo_of, file_undo_of, write_undo_pair, write_undo, save_undo,
  persist_undos, restore_all, not_persisted,
}
use dsh_better_edit.Mutation.Store.{
  FailsOnce, FailsOnce-Calm, SameRows, SameEntries, SameRows-SameEntries, path_of, Holds,
  restore_all-files, restore_all-rows, update_other, update_self,
}

-- The rows that are saved for a file, with the stamp of the third call.
abbrev pub saved_row : Env → UndoWriteFile → World → Option UndoRow
saved_row env f w = stamped (env.now (suc (suc w.calls))) (some (undo_of f))

abbrev pub saved_file_row : Env → UndoWriteFile → World → Option FileUndoRecord
saved_file_row env f w = file_stamped (env.now (suc (suc w.calls))) (some (file_undo_of env f))

-- The world with the entry of a file saved, which takes three calls.
abbrev pub saved_world : Env → UndoWriteFile → World → World
saved_world env f w = record {
  files = w.files;
  undos = update w.undos f.absolute_path (saved_row env f w);
  file_undos = update w.file_undos f.absolute_path (saved_file_row env f w);
  calls = suc (suc (suc w.calls));
}

abbrev pub saved_entry : UndoWriteFile → World → Undo
saved_entry f w = record {
  file = f;
  previous = undo_entry (w.undos f.absolute_path);
  previous_file_undo = w.file_undos f.absolute_path;
}

-- A saved entry, or a call that failed and changed no file and no row.
abbrev pub Stopped : Env → World → World → Type 0
Stopped env w v =
    (k : ℕ) × (env.fails k ≡ true)
    × (v.calls ≡ suc k)
    × (v.files ≡ w.files)
    × (v.undos ≡ w.undos)
    × (v.file_undos ≡ w.file_undos)

pub save_undo-cases :
    (env : Env) (f : UndoWriteFile) (w : World)
    → ((save_undo env f w ≡ record {
      world = saved_world env f w;
      persisted = true;
      previous = undo_entry (w.undos f.absolute_path);
      previous_file_undo = w.file_undos f.absolute_path;
    }))
      ⊎ ((v : World) × (save_undo env f w ≡ not_persisted v) × Stopped env w v)
unfolding save_undo write_undo write_undo_pair
save_undo-cases env f w = elim (Bool-cases (env.fails w.calls)) [
  | inl a ↦ inr (tick w, rw a refl, (w.calls, a, refl, refl, refl, refl))
  | inr a ↦ elim (Bool-cases (env.fails (suc w.calls))) [
    | inl b ↦ inr (tick (tick w), rw (a, b) refl, (suc w.calls, b, refl, refl, refl, refl))
    | inr b ↦ elim (Bool-cases (env.fails (suc (suc w.calls)))) [
      | inl c ↦
          inr (
            tick (tick (tick w)),
            rw (a, b, c) refl,
            (suc (suc w.calls), c, refl, refl, refl, refl),
          )
      | inr c ↦ inl (rw (a, b, c) refl)
    ]
  ]
]

abbrev pub absolute_path_of : UndoWriteFile → Str
absolute_path_of f = f.absolute_path

-- The rows of an entry's path are those that the transaction saves for its file, with one stamp.
abbrev pub IsRecorded : Env → World → Undo → Type 0
IsRecorded env w u =
    (t : ℕ) × (w.undos u.file.absolute_path ≡ stamped t (some (undo_of u.file)))
    × (w.file_undos u.file.absolute_path ≡ file_stamped t (some (file_undo_of env u.file)))

-- Where the first loop stands after it saved the entries `us`, from the world `v`.
pub record IsSaving (env : Env) (v : World) (us : List Undo) (w : World) : Type 0 where
  pub files_same : w.files ≡ v.files
  pub holds : All (Holds v) us
  pub recorded : All (IsRecorded env w) us
  pub others : (p : Str) → NotIn p (map path_of us) → SameRows v w p

-- No path of the files left is a path of a saved entry.
abbrev pub AreAway : List Undo → List UndoWriteFile → Type 0
AreAway us fs = All (λ (f : UndoWriteFile). NotIn f.absolute_path (map path_of us)) fs

pub NotIn-left {ℓ} : {A : Type ℓ} (a : A) (xs ys : List A) → NotIn a (xs ++ ys) → NotIn a xs
NotIn-left a [] ys h = tt
NotIn-left a (x ∷ xs) ys (p, h) = (p, NotIn-left a xs ys h)

pub NotIn-right {ℓ} : {A : Type ℓ} (a : A) (xs ys : List A) → NotIn a (xs ++ ys) → NotIn a ys
NotIn-right a [] ys h = h
NotIn-right a (x ∷ xs) ys (p, h) = NotIn-right a xs ys h

pub All-snoc {ℓ κ} :
    {A : Type ℓ} (P : A → Type κ) (xs : List A) (a : A) → All P xs → P a → All P (xs ++ a ∷ [])
All-snoc P [] a h p = (p, tt)
All-snoc P (x ∷ xs) a (q, h) p = (q, All-snoc P xs a h p)

pub map-snoc {ℓ κ} :
    {A : Type ℓ} {B : Type κ} (f : A → B) (xs : List A) (a : A)
    → map f (xs ++ a ∷ []) ≡ map f xs ++ f a ∷ []
map-snoc f [] a = refl
map-snoc f (x ∷ xs) a = ap (λ t. f x ∷ t) (map-snoc f xs a)

-- Entries of other paths stay recorded when a further entry is saved.
IsRecorded-saved :
    (env : Env) (f : UndoWriteFile) (w : World) (us : List Undo)
    → NotIn f.absolute_path (map path_of us)
    → All (IsRecorded env w) us
    → All (IsRecorded env (saved_world env f w)) us
IsRecorded-saved env f w [] away h = tt
IsRecorded-saved env f w (u ∷ us) (ne, away) ((t, a, b), h) = (
  (
    t,
    update_other w.undos f.absolute_path (saved_row env f w) (path_of u) (λ e. ne (sym e)) ∙ a,
    update_other w.file_undos f.absolute_path (saved_file_row env f w) (path_of u) (λ e. ne (sym e))
        ∙ b,
  ),
  IsRecorded-saved env f w us away h,
)

-- One more entry saved.
saved_entry-IsSaving :
    (env : Env) (v : World) (us : List Undo) (w : World) (f : UndoWriteFile)
    → IsSaving env v us w
    → NotIn f.absolute_path (map path_of us)
    → IsSaving env v (us ++ saved_entry f w ∷ []) (saved_world env f w)
saved_entry-IsSaving env v us w f s away = record {
  files_same = s.files_same;
  holds =
      All-snoc (Holds v) us (saved_entry f w) s.holds
        (let same = s.others f.absolute_path away in (ap undo_entry same.0, same.1));
  recorded =
      All-snoc (IsRecorded env (saved_world env f w)) us (saved_entry f w)
        (IsRecorded-saved env f w us away s.recorded)
        (
          env.now (suc (suc w.calls)),
          update_self w.undos f.absolute_path (saved_row env f w),
          update_self w.file_undos f.absolute_path (saved_file_row env f w),
        );
  others = λ p h.
      let h' : NotIn p (map path_of us ++ f.absolute_path ∷ []) =
        subst (NotIn p) (map-snoc path_of us (saved_entry f w)) h in
      let ne : p ≢ f.absolute_path = (NotIn-right p (map path_of us) (f.absolute_path ∷ []) h').0 in
      let same : SameRows v w p =
        s.others p (NotIn-left p (map path_of us) (f.absolute_path ∷ []) h') in
      (
        update_other w.undos f.absolute_path (saved_row env f w) p ne ∙ same.0,
        update_other w.file_undos f.absolute_path (saved_file_row env f w) p ne ∙ same.1,
      );
}

pub AreAway-snoc :
    (us : List Undo) (u : Undo) (fs : List UndoWriteFile)
    → NotIn u.file.absolute_path (map absolute_path_of fs)
    → AreAway us fs
    → AreAway (us ++ u ∷ []) fs
AreAway-snoc us u [] ne h = tt
AreAway-snoc us u (g ∷ gs) (ne, nes) (h, hs) = (
  subst (NotIn g.absolute_path) (sym (map-snoc path_of us u))
      (NotIn-append g.absolute_path (map path_of us) (path_of u ∷ []) h ((λ e. ne (sym e)), tt)),
  AreAway-snoc us u gs nes hs,
)

abbrev pub file_of : Undo → UndoWriteFile
file_of u = u.file

abbrev pub refusal : Env → List Undo → UndoWriteFile → World → Persisted
refusal env us f w = record {
  world = restore_all env us w;
  undos = us;
  refused = some f.display_path;
}

abbrev after_save : Env → UndoWriteFile → List UndoWriteFile → List Undo → SavedUndo → Persisted
after_save env f fs us undo = elim undo.persisted [
  | false ↦ refusal env us f undo.world
  | true ↦
      persist_undos env fs
        (us
          ++ record {
            file = f;
            previous = undo.previous;
            previous_file_undo = undo.previous_file_undo;
          }
            ∷ [])
        undo.world
]

-- The next step of the loop: the file's entry is saved, or the loop ends with the entries put back.
pub persist_undos-step :
    (env : Env) (f : UndoWriteFile) (fs : List UndoWriteFile) (us : List Undo) (w : World)
    → (persist_undos env (f ∷ fs) us w
        ≡ persist_undos env fs (us ++ saved_entry f w ∷ []) (saved_world env f w))
      ⊎ ((v : World) × (persist_undos env (f ∷ fs) us w ≡ refusal env us f v) × Stopped env w v)
unfolding persist_undos
persist_undos-step env f fs us w = elim (save_undo-cases env f w) [
  | inl same ↦ inl (ap (after_save env f fs us) same)
  | inr (v, same, stopped) ↦ inr (v, ap (after_save env f fs us) same, stopped)
]

-- Entries that are all saved stand for the files, in order.
pub persist_undos-saved :
    (env : Env) (v : World) (fs : List UndoWriteFile) (us : List Undo) (w : World)
    → IsSaving env v us w
    → Distinct (map absolute_path_of fs)
    → AreAway us fs
    → (persist_undos env fs us w).refused ≡ none
    → IsSaving env v (persist_undos env fs us w).undos (persist_undos env fs us w).world
      × (map file_of (persist_undos env fs us w).undos ≡ map file_of us ++ fs)
persist_undos-saved env v [] us w s distinct away e =
    unfold persist_undos in (s, sym (append-nil (map file_of us)))
persist_undos-saved env v (f ∷ fs) us w s (ne, distinct) (away, aways) e =
    elim (persist_undos-step env f fs us w) [
      | inl same ↦
          let rest =
            persist_undos-saved env v fs (us ++ saved_entry f w ∷ []) (saved_world env f w)
              (saved_entry-IsSaving env v us w f s away) distinct
              (AreAway-snoc us (saved_entry f w) fs ne aways)
              (ap (λ r. r.refused) (sym same) ∙ e) in
          rw same (
            rest.0,
            rest.1
                ∙ ap (λ t. t ++ fs) (map-snoc file_of us (saved_entry f w))
                ∙ append_assoc (map file_of us) (f ∷ []) fs,
          )
      | inr (v', same, stopped) ↦ absurd (some-ne-none (ap (λ r. r.refused) (sym same) ∙ e))
    ]
  where
    some-ne-none : some f.display_path ≡ none → ⊥
    some-ne-none p = cc

-- A loop that refuses a file has put the content of every row back.
pub persist_undos-refused :
    (env : Env) (v : World) (fs : List UndoWriteFile) (us : List Undo) (w : World) (path : Str)
    → FailsOnce env
    → IsSaving env v us w
    → Distinct (map absolute_path_of fs)
    → AreAway us fs
    → (persist_undos env fs us w).refused ≡ some path
    → (p : Str) → SameEntries v (persist_undos env fs us w).world p
persist_undos-refused env v [] us w path once s distinct away e p =
    absurd (none-ne-some (unfold persist_undos in e))
  where
    none-ne-some : none ≡ some path → ⊥
    none-ne-some q = cc
persist_undos-refused env v (f ∷ fs) us w path once s (ne, distinct) (away, aways) e p =
    elim (persist_undos-step env f fs us w) [
      | inl same ↦ rw same (
          persist_undos-refused env v fs (us ++ saved_entry f w ∷ []) (saved_world env f w) path
            once (saved_entry-IsSaving env v us w f s away) distinct
            (AreAway-snoc us (saved_entry f w) fs ne aways) (ap (λ r. r.refused) (sym same) ∙ e) p)
      | inr (v', same, (k, fail, calls, files, undos, file_undos)) ↦ rw same (
          restore_all-rows env v us v'
            (λ m le. FailsOnce-Calm env k once fail m (omega (arith, calls))) s.holds
            (λ q h.
              SameRows-SameEntries v v' q (
                ap (λ t. t q) undos ∙ (s.others q h).0,
                ap (λ t. t q) file_undos ∙ (s.others q h).1,
              ))
            p)
    ]

-- The first loop touches no file, whichever calls fail.
pub persist_undos-files :
    (env : Env) (fs : List UndoWriteFile) (us : List Undo) (w : World)
    → (persist_undos env fs us w).world.files ≡ w.files
persist_undos-files env [] us w = unfold persist_undos in refl
persist_undos-files env (f ∷ fs) us w = elim (persist_undos-step env f fs us w) [
  | inl same ↦
      rw same (persist_undos-files env fs (us ++ saved_entry f w ∷ []) (saved_world env f w))
  | inr (v, same, (k, fail, calls, files, undos, file_undos)) ↦
      rw same (restore_all-files env us v ∙ files)
]
