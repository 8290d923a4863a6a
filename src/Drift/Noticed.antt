-- ===== src/Drift/Noticed.antt =====
-- When there is a drift notice, by the lines that were served and the anchors of the file.
use mathlib.Core.Path.{subst}
use dsh_better_edit.Prelude.{
  ℕ, zero, suc, ◌+◌, ◌<◌, ◌≡◌, ◌↔◌, ◌⊎◌, refl, ap, sym, ◌∙◌, true, false, Option, none, some, List,
  [], ◌∷◌, Str, Bool-cases, inl, inr, get_elem?, arith, pos, ltb, Member, has-Member,
}
use dsh_better_edit.AnchorPipeline.Leases.{Slot}
use dsh_better_edit.Drift.{
  DriftInput, DriftNotice, is_outside, is_checked, has_canons, ServedRange, compute_drift,
}
use dsh_better_edit.Drift.Survivors.{all_survive, is_none, compute_drift-all_survive}
use dsh_better_edit.Drift.Range.{IsServedRange, served_range-IsServedRange}

-- Every line served outside the range still has its anchor; the slots start at the position `i`.
abbrev AllSurvive : List Str → ℕ → ℕ → ℕ → List Slot → Type 0
AllSurvive hashes from to i slots =
    (q : ℕ) (hash : Str)
    → get_elem? slots q ≡ some (some hash)
    → (i + q < from) ⊎ (to < i + q)
    → Member hash hashes

outside_iff : (from to i : ℕ) → (is_outside (pos from) (pos to) i ≡ true) ↔ ((i < from) ⊎ (to < i))
outside_iff from to i = (
  λ e. elim (Bool-cases (ltb i from)) [
    | inl before ↦ inl (ground (arith, before))
    | inr other ↦ inr (ground (arith, other, e))
  ],
  λ o. ground (arith, o),
)

not_checked :
    (input : DriftInput) (from to i : ℕ) (hash : Str)
    → (is_checked input from to i hash ≡ false)
      ↔ ((i < from) ⊎ (to < i) → Member hash input.result_hashes)
not_checked input from to i hash = (
  λ e o.
      let out = (outside_iff from to i).1 o in
      (has-Member hash input.result_hashes).0 (ground (arith, out, e)),
  λ f. elim (Bool-cases (is_outside (pos from) (pos to) i)) [
    | inl out ↦
        (let there = (has-Member hash input.result_hashes).1 (f ((outside_iff from to i).0 out)) in
          ground (arith, out, there))
    | inr within ↦ ground (arith, within)
  ],
)

AllSurvive-tail :
    (hashes : List Str) (from to i : ℕ) (slot : Slot) (slots : List Slot)
    → AllSurvive hashes from to i (slot ∷ slots)
    → AllSurvive hashes from to (suc i) slots
AllSurvive-tail hashes from to i slot slots f q hash at o =
    f (suc q) hash at (elim o [
      | inl before ↦ inl (omega (arith, before))
      | inr behind ↦ inr (omega (arith, behind))
    ])

-- A first slot that survives, and the others.
AllSurvive-cons :
    (hashes : List Str) (from to i : ℕ) (slot : Slot) (slots : List Slot)
    → ((hash : Str) → slot ≡ some hash → (i < from) ⊎ (to < i) → Member hash hashes)
    → AllSurvive hashes from to (suc i) slots
    → AllSurvive hashes from to i (slot ∷ slots)
AllSurvive-cons hashes from to i slot slots first rest zero hash at o =
    first hash (let same : slot ≡ some hash = cc in same) (elim o [
      | inl before ↦ inl (omega (arith, before))
      | inr behind ↦ inr (omega (arith, behind))
    ])
AllSurvive-cons hashes from to i slot slots first rest (suc q) hash at o =
    rest q hash at (elim o [
      | inl before ↦ inl (omega (arith, before))
      | inr behind ↦ inr (omega (arith, behind))
    ])

all_survive_iff :
    (input : DriftInput) (from to i : ℕ) (slots : List Slot)
    → (all_survive input from to i slots ≡ true) ↔ AllSurvive input.result_hashes from to i slots
unfolding all_survive
all_survive_iff input from to i [] = (λ e q hash at. cc, λ f. refl)
all_survive_iff input from to i (none ∷ slots) = (
  λ e.
      AllSurvive-cons input.result_hashes from to i none slots (λ hash same. cc)
        ((all_survive_iff input from to (suc i) slots).0 e),
  λ f.
      (all_survive_iff input from to (suc i) slots).1
        (AllSurvive-tail input.result_hashes from to i none slots f),
)
all_survive_iff input from to i (some h ∷ slots) = (
  λ e. elim (Bool-cases (is_checked input from to i h)) [
    | inl checked ↦ absurd (ground (arith, checked, e))
    | inr quiet ↦
        AllSurvive-cons input.result_hashes from to i (some h) slots
          (λ hash same o.
            let eq : h ≡ hash = cc in
            subst (λ t. Member t input.result_hashes) eq
              ((not_checked input from to i h).0 quiet o))
          ((all_survive_iff input from to (suc i) slots).0 (ground (arith, quiet, e)))
  ],
  λ f.
      let here = (not_checked input from to i h).1 (λ o. f 0 h refl (elim o [
        | inl before ↦ inl (omega (arith, before))
        | inr behind ↦ inr (omega (arith, behind))
      ])) in
      let rest =
        (all_survive_iff input from to (suc i) slots).1
          (AllSurvive-tail input.result_hashes from to i (some h) slots f) in
      ground (arith, here, rest),
)

has_canons-false :
    (cs : List (Option Str)) → ((c : Str) → ¬ (Member (some c) cs)) → has_canons cs ≡ false
unfolding has_canons
has_canons-false [] h = refl
has_canons-false (none ∷ cs) h = has_canons-false cs (λ c m. h c (inr m))
has_canons-false (some c ∷ cs) h = absurd (h c (inl refl))

is_none_iff : (o : Option DriftNotice) → (is_none o ≡ true) ↔ (o ≡ none)
is_none_iff none = (λ e. refl, λ e. refl)
is_none_iff (some n) = (λ e. cc, λ e. cc)

-- Where no canon of a served line is recorded, there is no drift notice exactly when each line served
-- outside the range of the edit still has its anchor in the file. The range is that of the two anchors where
-- each was served once, and else that of the edit's lines.
pub compute_drift-none :
    (input : DriftInput) (from to : ℕ)
    → IsServedRange input from to
    → ((c : Str) → ¬ (Member (some c) input.served_canons))
    → (compute_drift input ≡ none) ↔ (
        (q : ℕ) (hash : Str)
        → get_elem? input.served q ≡ some (some hash)
        → (q < from) ⊎ (to < q)
        → Member hash input.result_hashes)
compute_drift-none input from to range no_canons =
    let same = served_range-IsServedRange input from to range in
    let counted : is_none (compute_drift input) ≡ all_survive input from to 0 input.served =
      compute_drift-all_survive input (has_canons-false input.served_canons no_canons)
      ∙ ap (λ (r : ServedRange). all_survive input r.from r.to 0 input.served) same in
    let survive = all_survive_iff input from to 0 input.served in
    let silent = is_none_iff (compute_drift input) in
    (
      λ e q hash at o. survive.0 (sym counted ∙ silent.1 e) q hash at (elim o [
        | inl before ↦ inl (omega (arith, before))
        | inr behind ↦ inr (omega (arith, behind))
      ]),
      λ f. silent.0 (
          counted
          ∙ survive.1 (λ q hash at o. f q hash at (elim o [
            | inl before ↦ inl (omega (arith, before))
            | inr behind ↦ inr (omega (arith, behind))
          ]))),
    )
