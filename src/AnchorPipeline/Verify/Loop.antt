-- ===== src/AnchorPipeline/Verify/Loop.antt =====
-- The loops and the small tests of the verification.
use dsh_better_edit.Prelude.{
  ℕ, zero, suc, ◌+◌, ◌-◌, ◌<◌, ◌≤◌, ◌≡◌, refl, sym, ap, ◌∙◌, true, false, Option, none, some, List,
  [], ◌∷◌, Str, str_eq, str_eq_sound, get_elem?, arith, Bool-cases, inl, inr,
}
use dsh_better_edit.HashAssign.{canon}
use dsh_better_edit.AnchorPipeline.{Result, ok, ◌>>◌, >>-eq-ok}
use dsh_better_edit.AnchorPipeline.Leases.{Slot, for_each}
use dsh_better_edit.AnchorPipeline.Verify.{served_positions_of, same_anchor, canon_differs}

-- A loop that throws in no round ran every round.
pub for_each-ok :
    (count k : ℕ) (body : ℕ → Result (Unit {0})) (j : ℕ)
    → for_each count k body ≡ ok tt
    → j < count
    → body (k + j) ≡ ok tt
unfolding for_each
for_each-ok zero k body j e h = absurd (omega arith)
for_each-ok (suc count) k body zero e h =
    let at : k + 0 ≡ k = omega arith in
    ap body at ∙ (>>-eq-ok (body k) (for_each count (suc k) body) tt e).0
for_each-ok (suc count) k body (suc j) e h =
    let at : k + suc j ≡ suc k + j = omega arith in
    ap body at
    ∙ for_each-ok count (suc k) body j (>>-eq-ok (body k) (for_each count (suc k) body) tt e).1
        (omega arith)

pub for_each-ok_zero :
    (count : ℕ) (body : ℕ → Result (Unit {0})) (j : ℕ)
    → for_each count 0 body ≡ ok tt
    → j < count
    → body j ≡ ok tt
for_each-ok_zero count body j e h =
    let at : j ≡ 0 + j = omega arith in ap body at ∙ for_each-ok count 0 body j e h

pub for_each-intro :
    (count k : ℕ) (body : ℕ → Result (Unit {0}))
    → ((j : ℕ) → j < count → body (k + j) ≡ ok tt)
    → for_each count k body ≡ ok tt
unfolding for_each
for_each-intro zero k body h = refl
for_each-intro (suc count) k body h =
    let at : k + 0 ≡ k = omega arith in
    let first : body k ≡ ok tt = ap body (sym at) ∙ h 0 (omega arith) in
    let rest : for_each count (suc k) body ≡ ok tt =
      for_each-intro count (suc k) body (λ j b. ap body (omega arith) ∙ h (suc j) (omega arith)) in
    ap (λ m. m >> for_each count (suc k) body) first ∙ rest

-- A served position holds the anchor, and every slot that holds it is one.
pub positions-get :
    (served : List Slot) (hash : Str) (i p : ℕ) (ps : List ℕ)
    → served_positions_of served hash i ≡ p ∷ ps
    → (i ≤ p) × (get_elem? served (p - i) ≡ some (some hash))
unfolding served_positions_of
positions-get [] hash i p ps e = cc
positions-get (none ∷ served) hash i p ps e =
    let ih : (suc i ≤ p) × (get_elem? served (p - suc i) ≡ some (some hash)) =
      positions-get served hash (suc i) p ps e in
    let at : p - i ≡ suc (p - suc i) = omega arith in (omega arith, rw at ih.1)
positions-get (some h ∷ served) hash i p ps e = elim (Bool-cases (str_eq h hash)) [
  | inl same ↦
      let here : i ≡ p = ground arith in
      let at : p - i ≡ 0 = omega arith in
      (omega arith, rw at (ap (λ t. some (some t)) (str_eq_sound h hash same)))
  | inr other ↦
      let ih : (suc i ≤ p) × (get_elem? served (p - suc i) ≡ some (some hash)) =
        positions-get served hash (suc i) p ps (ground arith) in
      let at : p - i ≡ suc (p - suc i) = omega arith in (omega arith, rw at ih.1)
]

pub same_anchor_sound :
    (slot : Slot) (h : Option Str)
    → same_anchor (some slot) h ≡ true
    → (g : Str) × (slot ≡ some g) × (h ≡ some g)
same_anchor_sound none h e = cc
same_anchor_sound (some g) none e = cc
same_anchor_sound (some g) (some h) e = (g, refl, ap some (sym (str_eq_sound g h e)))

-- A canon that was recorded is the line's.
pub canon_differs_sound :
    (slot : Slot) (line expected : Str)
    → canon_differs slot line ≡ false
    → slot ≡ some expected
    → canon line ≡ expected
canon_differs_sound none line expected h e = cc
canon_differs_sound (some c) line expected h e = elim (Bool-cases (str_eq c (canon line))) [
  | inl same ↦ let eq : c ≡ expected = cc in sym (str_eq_sound c (canon line) same) ∙ eq
  | inr other ↦ absurd (ground arith)
]
