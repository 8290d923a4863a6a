-- ===== src/Mutation/Store.antt =====
-- What one call of the transaction does to the undo tables and the files.
use dsh_better_edit.Prelude.{
  ℕ, suc, ◌≤◌, ◌≡◌, refl, ap, sym, ◌∙◌, true, false, Option, none, some, List, [], ◌∷◌, map, Str,
  str_eq, str_eq_refl, str_eq_sound, str_eq-ne, Bool-cases, ◌⊎◌, inl, inr, NotIn, All, arith, ◌≢◌,
}
use dsh_better_edit.Mutation.{
  World, Env, Undo, UndoWriteFile, UndoRecord, FileUndoRecord, undo_entry, file_undo_entry, stamped,
  file_stamped, update, write_undo_pair, delete_undo_pair, restore, restore_all,
}

-- No call fails from the `n`-th on.
abbrev pub Calm : Env → ℕ → Type 0
Calm env n = (m : ℕ) → n ≤ m → env.fails m ≡ false

-- At most one call fails.
abbrev pub FailsOnce : Env → Type 0
FailsOnce env = (m n : ℕ) → env.fails m ≡ true → env.fails n ≡ true → m ≡ n

-- A write that fails leaves the file as it was.
abbrev pub WritesWhole : Env → Type 0
WritesWhole env = (n : ℕ) (old : Option Str) (new : Str) → env.leaves n old new ≡ old

-- Behind the only failure no call fails.
pub FailsOnce-Calm : (env : Env) (k : ℕ) → FailsOnce env → env.fails k ≡ true → Calm env (suc k)
FailsOnce-Calm env k once fail m le = elim (Bool-cases (env.fails m)) [
  | inl bad ↦ absurd (omega (arith, once m k bad fail))
  | inr good ↦ good
]

-- The rows of a path are the same in both worlds.
abbrev pub SameRows : World → World → Str → Type 0
SameRows w v p = (v.undos p ≡ w.undos p) × (v.file_undos p ≡ w.file_undos p)

-- The rows of a path have the same content in both worlds, whatever their stamps.
abbrev pub SameEntries : World → World → Str → Type 0
SameEntries w v p =
    (undo_entry (v.undos p) ≡ undo_entry (w.undos p))
    × (file_undo_entry (v.file_undos p) ≡ file_undo_entry (w.file_undos p))

pub SameRows-SameEntries : (w v : World) (p : Str) → SameRows w v p → SameEntries w v p
SameRows-SameEntries w v p (a, b) = (ap undo_entry a, ap file_undo_entry b)

abbrev pub path_of : Undo → Str
path_of u = u.file.absolute_path

-- A recorded undo entry holds what the rows of the world had for its path.
abbrev pub Holds : World → Undo → Type 0
Holds w u =
    (u.previous ≡ undo_entry (w.undos u.file.absolute_path))
    × (u.previous_file_undo ≡ w.file_undos u.file.absolute_path)

pub update_self {ℓ} :
    {A : Type ℓ} (m : Str → Option A) (path : Str) (v : Option A) → update m path v path ≡ v
update_self m path v = rw (str_eq_refl path) refl

pub update_other {ℓ} :
    {A : Type ℓ} (m : Str → Option A) (path : Str) (v : Option A) (p : Str)
    → p ≢ path
    → update m path v p ≡ m p
update_other m path v p ne = elim (Bool-cases (str_eq p path)) [
  | inl same ↦ absurd (ne (str_eq_sound p path same))
  | inr differ ↦ rw differ refl
]

pub str_dec : (p q : Str) → (p ≡ q) ⊎ (p ≢ q)
str_dec p q = elim (Bool-cases (str_eq p q)) [
  | inl same ↦ inl (str_eq_sound p q same)
  | inr differ ↦ inr (str_eq-ne p q differ)
]

-- The world with the rows of an entry put back, with a new stamp.
abbrev pub put_back : Env → Undo → World → World
put_back env u w = record {
  files = w.files;
  undos = update w.undos u.file.absolute_path (stamped (env.now w.calls) u.previous);
  file_undos =
      update w.file_undos u.file.absolute_path
        (file_stamped (env.now w.calls) (file_undo_entry u.previous_file_undo));
  calls = suc w.calls;
}

restored_rows :
    (env : Env) (f : UndoWriteFile) (a : Option UndoRecord) (b : Option FileUndoRecord) (w : World)
    → env.fails w.calls ≡ false
    → restore env (record { file = f; previous = a; previous_file_undo = b }) w
      ≡ put_back env (record { file = f; previous = a; previous_file_undo = b }) w
unfolding restore write_undo_pair delete_undo_pair
restored_rows env f none none w calm = rw calm refl
restored_rows env f none (some b) w calm = rw calm refl
restored_rows env f (some a) none w calm = rw calm refl
restored_rows env f (some a) (some b) w calm = rw calm refl

-- A restore that does not fail puts the rows back.
pub restore_calm :
    (env : Env) (u : Undo) (w : World)
    → env.fails w.calls ≡ false
    → restore env u w ≡ put_back env u w
restore_calm env u w calm = restored_rows env u.file u.previous u.previous_file_undo w calm

undo_entry-stamped : (t : ℕ) (o : Option UndoRecord) → undo_entry (stamped t o) ≡ o
undo_entry-stamped t none = refl
undo_entry-stamped t (some e) = refl

file_undo_entry-stamped :
    (t : ℕ) (o : Option FileUndoRecord)
    → file_undo_entry (file_stamped t (file_undo_entry o)) ≡ file_undo_entry o
file_undo_entry-stamped t none = refl
file_undo_entry-stamped t (some e) = refl

-- A restore touches no file and makes one call, whether it fails or not.
pub restore-files : (env : Env) (u : Undo) (w : World) → (restore env u w).files ≡ w.files
unfolding restore write_undo_pair delete_undo_pair
restore-files env u w = ground arith

pub restore-calls : (env : Env) (u : Undo) (w : World) → (restore env u w).calls ≡ suc w.calls
unfolding restore write_undo_pair delete_undo_pair
restore-calls env u w = ground arith

pub restore_all-files :
    (env : Env) (us : List Undo) (w : World) → (restore_all env us w).files ≡ w.files
unfolding restore_all
restore_all-files env [] w = refl
restore_all-files env (u ∷ us) w =
    restore_all-files env us (restore env u w) ∙ restore-files env u w

-- Putting one entry back keeps the contents that were right and repairs those of its path.
pub put_back-rows :
    (env : Env) (v : World) (u : Undo) (w : World)
    → Holds v u
    → (p : Str) → (p ≢ path_of u → SameEntries v w p)
    → SameEntries v (put_back env u w) p
put_back-rows env v u w (h, k) p other =
    let t : ℕ = env.now w.calls in
    let back : Option FileUndoRecord = file_stamped t (file_undo_entry u.previous_file_undo) in
    elim (str_dec p (path_of u)) [
      | inl same ↦ (
        ap undo_entry (rw same (update_self w.undos (path_of u) (stamped t u.previous)))
            ∙ undo_entry-stamped t u.previous
            ∙ h
            ∙ ap (λ q. undo_entry (v.undos q)) (sym same),
        ap file_undo_entry (rw same (update_self w.file_undos (path_of u) back))
            ∙ file_undo_entry-stamped t u.previous_file_undo
            ∙ ap file_undo_entry k
            ∙ ap (λ q. file_undo_entry (v.file_undos q)) (sym same),
      )
      | inr differ ↦ (
        ap undo_entry (update_other w.undos (path_of u) (stamped t u.previous) p differ)
            ∙ (other differ).0,
        ap file_undo_entry (update_other w.file_undos (path_of u) back p differ) ∙ (other differ).1,
      )
    ]

-- Putting entries back makes the contents of the rows of their paths what they were.
pub restore_all-rows :
    (env : Env) (v : World) (us : List Undo) (w : World)
    → Calm env w.calls
    → All (Holds v) us
    → ((p : Str) → NotIn p (map path_of us) → SameEntries v w p)
    → (p : Str) → SameEntries v (restore_all env us w) p
unfolding restore_all
restore_all-rows env v [] w calm holds others p = others p tt
restore_all-rows env v (u ∷ us) w calm (h, hs) others p =
    let put : restore env u w ≡ put_back env u w =
      restore_calm env u w (calm w.calls (omega arith)) in
    restore_all-rows env v us (restore env u w)
      (λ m le. calm m (omega (arith, restore-calls env u w))) hs
      (λ q away. rw put (put_back-rows env v u w h q (λ ne. others q (ne, away)))) p
