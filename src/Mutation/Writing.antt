-- ===== src/Mutation/Writing.antt =====
-- The second loop of the transaction, which writes the files, and the loop that puts them back.
use mathlib.Core.Path.{subst}
use mathlib.Core.List.{append-nil, append_assoc}
use dsh_better_edit.Prelude.{
  ℕ, suc, ◌≤◌, ◌≡◌, refl, ap, sym, ◌∙◌, true, false, Option, some, List, [], ◌∷◌, ◌++◌, map, Str,
  Bool-cases, ◌⊎◌, inl, inr, NotIn, All, Distinct, arith, ◌≢◌,
}
use dsh_better_edit.Mutation.{
  World, Env, Undo, UndoWriteFile, Written, update, tick, result_bytes, original_bytes, write_text,
  write_files, unwrite_all, restore, Attempt,
}
use dsh_better_edit.Mutation.Store.{
  Calm, WritesWhole, SameEntries, path_of, Holds, put_back, put_back-rows, restore_calm,
  restore-files, restore-calls, update_other, update_self, str_dec,
}
use dsh_better_edit.Mutation.Saving.{
  AreAway, AreAway-snoc, file_of, absolute_path_of, All-snoc, map-snoc, NotIn-left, NotIn-right,
}

-- The world with a file written.
abbrev pub wrote_world : Str → Str → World → World
wrote_world path text w = record {
  files = update w.files path (some text);
  undos = w.undos;
  file_undos = w.file_undos;
  calls = suc w.calls;
}

-- A file of the entry holds its new content.
abbrev pub HasLanded : World → Undo → Type 0
HasLanded w u = w.files u.file.absolute_path ≡ some (result_bytes u.file)

-- Where the second loop stands after it wrote the files of `us`, from the world `v`.
pub record IsWriting (v : World) (us : List Undo) (w : World) : Type 0 where
  pub undos_same : w.undos ≡ v.undos
  pub file_undos_same : w.file_undos ≡ v.file_undos
  pub landed : All (HasLanded w) us
  pub others : (p : Str) → NotIn p (map path_of us) → w.files p ≡ v.files p

landed-wrote :
    (path text : Str) (w : World) (us : List Undo)
    → NotIn path (map path_of us)
    → All (HasLanded w) us
    → All (HasLanded (wrote_world path text w)) us
landed-wrote path text w [] away h = tt
landed-wrote path text w (u ∷ us) (ne, away) (a, h) = (
  update_other w.files path (some text) (path_of u) (λ e. ne (sym e)) ∙ a,
  landed-wrote path text w us away h,
)

-- One more file written, after the check of the signal.
wrote-IsWriting :
    (v : World) (us : List Undo) (w : World) (u : Undo)
    → IsWriting v us w
    → NotIn (path_of u) (map path_of us)
    → IsWriting v (us ++ u ∷ []) (wrote_world (path_of u) (result_bytes u.file) (tick w))
wrote-IsWriting v us w u s away = record {
  undos_same = s.undos_same;
  file_undos_same = s.file_undos_same;
  landed =
      All-snoc (HasLanded (wrote_world (path_of u) (result_bytes u.file) (tick w))) us u
        (landed-wrote (path_of u) (result_bytes u.file) (tick w) us away s.landed)
        (update_self w.files (path_of u) (some (result_bytes u.file)));
  others = λ p h.
      let h' : NotIn p (map path_of us ++ path_of u ∷ []) =
        subst (NotIn p) (map-snoc path_of us u) h in
      let ne : p ≢ path_of u = (NotIn-right p (map path_of us) (path_of u ∷ []) h').0 in
      update_other w.files (path_of u) (some (result_bytes u.file)) p ne
      ∙ s.others p (NotIn-left p (map path_of us) (path_of u ∷ []) h');
}

abbrev pub broken_off : List Undo → List Undo → World → Written
broken_off written unwritten w = record {
  world = w;
  written = written;
  unwritten = unwritten;
  threw = true;
}

-- A call failed and changed no row and, where a failed write leaves files alone, no file.
abbrev pub BrokeOff : Env → World → World → Type 0
BrokeOff env w v =
    (k : ℕ) × (env.fails k ≡ true)
    × (v.calls ≡ suc k)
    × (v.undos ≡ w.undos)
    × (v.file_undos ≡ w.file_undos)
    × ((p : Str) → v.files p ≡ w.files p)

update_same {ℓ} : {A : Type ℓ} (m : Str → Option A) (path p : Str) → update m path (m path) p ≡ m p
update_same m path p = elim (str_dec p path) [
  | inl same ↦ rw same (update_self m path (m path))
  | inr differ ↦ update_other m path (m path) p differ
]

write_text-cases :
    (env : Env) (path text : Str) (w : World)
    → WritesWhole env
    → (write_text env path text w ≡ record { world = wrote_world path text w; threw = false })
      ⊎ ((v : World) × (write_text env path text w ≡ record { world = v; threw = true })
          × BrokeOff env w v)
unfolding write_text
write_text-cases env path text w whole = elim (Bool-cases (env.fails w.calls)) [
  | inr good ↦ inl (rw good refl)
  | inl bad ↦ inr (
    record w {
      files = update w.files path (env.leaves w.calls (w.files path) text);
      calls = suc w.calls;
    },
    rw bad refl,
    (
      w.calls,
      bad,
      refl,
      refl,
      refl,
      λ p. rw (whole w.calls (w.files path) text) (update_same w.files path p),
    ),
  )
]

abbrev after_write : Env → Undo → List Undo → List Undo → Attempt → Written
after_write env u us written attempt = elim attempt.threw [
  | true ↦ broken_off written (u ∷ us) attempt.world
  | false ↦ write_files env us (written ++ u ∷ []) attempt.world
]

-- The next step of the loop: the file is written, or the loop breaks off.
pub write_files-step :
    (env : Env) (u : Undo) (us written : List Undo) (w : World)
    → WritesWhole env
    → (write_files env (u ∷ us) written w
        ≡ write_files env us
            (written ++ u ∷ [])
            (wrote_world (path_of u) (result_bytes u.file) (tick w)))
      ⊎ ((v : World) × (write_files env (u ∷ us) written w ≡ broken_off written (u ∷ us) v)
          × BrokeOff env w v)
unfolding write_files
write_files-step env u us written w whole = elim (Bool-cases (env.fails w.calls)) [
  | inl bad ↦ inr (tick w, rw bad refl, (w.calls, bad, refl, refl, refl, λ p. refl))
  | inr good ↦ elim (write_text-cases env (path_of u) (result_bytes u.file) (tick w) whole) [
    | inl same ↦ inl (rw good (ap (after_write env u us written) same))
    | inr (v, same, broke) ↦ inr (v, rw good (ap (after_write env u us written) same), broke)
  ]
]

-- A loop that ends wrote every file.
pub write_files-landed :
    (env : Env) (v : World) (us written : List Undo) (w : World)
    → WritesWhole env
    → IsWriting v written w
    → Distinct (map absolute_path_of (map file_of us))
    → AreAway written (map file_of us)
    → (write_files env us written w).threw ≡ false
    → IsWriting v (written ++ us) (write_files env us written w).world
write_files-landed env v [] written w whole s distinct away e =
    unfold write_files in rw (append-nil written) s
write_files-landed env v (u ∷ us) written w whole s (ne, distinct) (away, aways) e =
    elim (write_files-step env u us written w whole) [
      | inl same ↦
          rw (same, ← append_assoc written (u ∷ []) us)
            (write_files-landed env v us (written ++ u ∷ [])
              (wrote_world (path_of u) (result_bytes u.file) (tick w)) whole
              (wrote-IsWriting v written w u s away) distinct
              (AreAway-snoc written u (map file_of us) ne aways) (ap (λ r. r.threw) (sym same) ∙ e))
      | inr (v', same, broke) ↦ absurd (true-ne-false (ap (λ r. r.threw) (sym same) ∙ e))
    ]
  where
    true-ne-false : true ≡ false → ⊥
    true-ne-false p = cc

-- What a loop that breaks off leaves: the written files hold their new content, the rest is as before.
pub record IsBroken (env : Env) (v : World) (us : List Undo) (r : Written) : Type 0 where
  pub split : r.written ++ r.unwritten ≡ us
  pub undos_same : r.world.undos ≡ v.undos
  pub file_undos_same : r.world.file_undos ≡ v.file_undos
  pub others : (p : Str) → NotIn p (map path_of r.written) → r.world.files p ≡ v.files p
  pub failed : (k : ℕ) × (env.fails k ≡ true) × (r.world.calls ≡ suc k)

pub write_files-IsBroken :
    (env : Env) (v : World) (us written : List Undo) (w : World)
    → WritesWhole env
    → IsWriting v written w
    → Distinct (map absolute_path_of (map file_of us))
    → AreAway written (map file_of us)
    → (write_files env us written w).threw ≡ true
    → IsBroken env v (written ++ us) (write_files env us written w)
write_files-IsBroken env v [] written w whole s distinct away e =
    absurd (false-ne-true (unfold write_files in e))
  where
    false-ne-true : false ≡ true → ⊥
    false-ne-true p = cc
write_files-IsBroken env v (u ∷ us) written w whole s (ne, distinct) (away, aways) e =
    elim (write_files-step env u us written w whole) [
      | inl same ↦
          rw (same, ← append_assoc written (u ∷ []) us)
            (write_files-IsBroken env v us (written ++ u ∷ [])
              (wrote_world (path_of u) (result_bytes u.file) (tick w)) whole
              (wrote-IsWriting v written w u s away) distinct
              (AreAway-snoc written u (map file_of us) ne aways) (ap (λ r. r.threw) (sym same) ∙ e))
      | inr (v', same, (k, fail, calls, undos, file_undos, files)) ↦ rw same (record {
        split = refl;
        undos_same = undos ∙ s.undos_same;
        file_undos_same = file_undos ∙ s.file_undos_same;
        others = λ p h. files p ∙ s.others p h;
        failed = (k, fail, calls);
      })
    ]

-- A recorded file held the content that the roll back writes.
abbrev pub HeldOriginal : World → UndoWriteFile → Type 0
HeldOriginal v f = v.files f.absolute_path ≡ some (original_bytes f)

write_text_calm :
    (env : Env) (path text : Str) (w : World)
    → env.fails w.calls ≡ false
    → write_text env path text w ≡ record { world = wrote_world path text w; threw = false }
unfolding write_text
write_text_calm env path text w calm = rw calm refl

-- One written file put back.
abbrev unwritten_world : Env → Undo → World → World
unwritten_world env u w = restore env u (wrote_world (path_of u) (original_bytes u.file) w)

unwrite_all-step :
    (env : Env) (u : Undo) (us : List Undo) (w : World)
    → env.fails w.calls ≡ false
    → unwrite_all env (u ∷ us) w ≡ unwrite_all env us (unwritten_world env u w)
unfolding unwrite_all
unwrite_all-step env u us w calm =
    ap (λ back. unwrite_all env us (restore env u back.world))
      (write_text_calm env (path_of u) (original_bytes u.file) w calm)

unwritten_world-calls :
    (env : Env) (u : Undo) (w : World) → (unwritten_world env u w).calls ≡ suc (suc w.calls)
unwritten_world-calls env u w =
    restore-calls env u (wrote_world (path_of u) (original_bytes u.file) w)

module _ (env : Env) (v : World) where
  -- Putting files back makes them what they were.
  pub unwrite_all-files :
      (us : List Undo) (w : World)
      → Calm env w.calls
      → All (λ (u : Undo). HeldOriginal v u.file) us
      → ((p : Str) → NotIn p (map path_of us) → w.files p ≡ v.files p)
      → (p : Str) → (unwrite_all env us w).files p ≡ v.files p
  unwrite_all-files [] w calm held others p = unfold unwrite_all in others p tt
  unwrite_all-files (u ∷ us) w calm (h, hs) others p =
      rw (unwrite_all-step env u us w (calm w.calls (omega arith))) (
        unwrite_all-files us (unwritten_world env u w)
          (λ m le. calm m (omega (arith, unwritten_world-calls env u w))) hs
          (λ q away.
            ap (λ t. t q) (restore-files env u (wrote_world (path_of u) (original_bytes u.file) w))
            ∙ back q away)
          p)
    where
      back :
          (q : Str)
          → NotIn q (map path_of us)
          → (wrote_world (path_of u) (original_bytes u.file) w).files q ≡ v.files q
      back q away = elim (str_dec q (path_of u)) [
        | inl same ↦
            rw same (update_self w.files (path_of u) (some (original_bytes u.file)) ∙ sym h)
        | inr differ ↦
            update_other w.files (path_of u) (some (original_bytes u.file)) q differ
            ∙ others q (differ, away)
      ]

  -- Putting files back puts the contents of their rows back too.
  pub unwrite_all-rows :
      (us : List Undo) (rest : List Str) (w : World)
      → Calm env w.calls
      → All (Holds v) us
      → ((p : Str) → NotIn p (map path_of us ++ rest) → SameEntries v w p)
      → (p : Str) → NotIn p rest
      → SameEntries v (unwrite_all env us w) p
  unwrite_all-rows [] rest w calm holds others p out = unfold unwrite_all in others p out
  unwrite_all-rows (u ∷ us) rest w calm (h, hs) others p out =
      let mid : World = wrote_world (path_of u) (original_bytes u.file) w in
      let put : restore env u mid ≡ put_back env u mid =
        restore_calm env u mid (calm (suc w.calls) (omega arith)) in
      rw (unwrite_all-step env u us w (calm w.calls (omega arith))) (
        unwrite_all-rows us rest (unwritten_world env u w)
          (λ m le. calm m (omega (arith, unwritten_world-calls env u w))) hs
          (λ q away. rw put (put_back-rows env v u mid h q (λ ne. others q (ne, away)))) p out)

-- The roll back makes at least no call go back.
pub unwrite_all-calls :
    (env : Env) (us : List Undo) (w : World)
    → Calm env w.calls
    → w.calls ≤ (unwrite_all env us w).calls
unwrite_all-calls env [] w calm = unfold unwrite_all in omega arith
unwrite_all-calls env (u ∷ us) w calm =
    rw (unwrite_all-step env u us w (calm w.calls (omega arith))) (
      omega (
        arith,
        unwritten_world-calls env u w,
        unwrite_all-calls env us (unwritten_world env u w)
            (λ m le. calm m (omega (arith, unwritten_world-calls env u w))),
      ))
