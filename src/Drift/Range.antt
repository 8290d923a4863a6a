-- ===== src/Drift/Range.antt =====
-- The range of an edit in the mirror (src/session-view.ts).
use mathlib.Core.Path.{subst}
use dsh_better_edit.Prelude.{
  ℕ, zero, suc, ◌+◌, ◌-◌, ◌≡◌, ◌≢◌, ◌↔◌, ◌⊎◌, refl, ap, sym, ◌∙◌, true, none, some, List, [], ◌∷◌,
  Str, Bool-cases, inl, inr, get_elem?, arith, min, max, str_eq, str_eq_sound, str_eq_refl, Member,
}
use dsh_better_edit.AnchorPipeline.Leases.{Slot}
use dsh_better_edit.AnchorPipeline.Verify.{served_positions_of}
use dsh_better_edit.AnchorPipeline.Verify.Loop.{positions-get}
use dsh_better_edit.Drift.{DriftInput, served_range, range_by, ordered_range, ServedRange}

-- The anchor was served at this position and at no other.
abbrev pub IsOnlyAt : List Slot → Str → ℕ → Type 0
IsOnlyAt served hash s = (q : ℕ) → (get_elem? served q ≡ some (some hash)) ↔ (q ≡ s)

-- The first and the last position of the edit: those of its two anchors where each was served once, and
-- else those of its lines.
abbrev pub IsServedRange : DriftInput → ℕ → ℕ → Type 0
IsServedRange input from to =
    ((s : ℕ) × (e : ℕ) × IsOnlyAt input.served input.range.start_hash s
      × IsOnlyAt input.served input.range.end_hash e
      × (from ≡ min s e)
      × (to ≡ max s e))
    ⊎ ((¬ (
          (s : ℕ) × (e : ℕ) × IsOnlyAt input.served input.range.start_hash s
          × IsOnlyAt input.served input.range.end_hash e))
        × (from ≡ min (input.range.start_line - 1) (input.range.end_line - 1))
        × (to ≡ max (input.range.start_line - 1) (input.range.end_line - 1)))

served_positions_of-absent :
    (served : List Slot) (hash : Str) (i : ℕ)
    → ((q : ℕ) → get_elem? served q ≢ some (some hash))
    → served_positions_of served hash i ≡ []
unfolding served_positions_of
served_positions_of-absent [] hash i h = refl
served_positions_of-absent (none ∷ served) hash i h =
    served_positions_of-absent served hash (suc i) (λ q. h (suc q))
served_positions_of-absent (some g ∷ served) hash i h = elim (Bool-cases (str_eq g hash)) [
  | inl same ↦ absurd (h 0 (ap (λ t. some (some t)) (str_eq_sound g hash same)))
  | inr other ↦ rw other (served_positions_of-absent served hash (suc i) (λ q. h (suc q)))
]

only_behind :
    (slot : Slot) (served : List Slot) (hash : Str) (s : ℕ)
    → IsOnlyAt (slot ∷ served) hash (suc s)
    → IsOnlyAt served hash s
only_behind slot served hash s h q =
    (λ at. omega (arith, (h (suc q)).0 at), λ same. (h (suc q)).1 (ap suc same))

served_positions_of-only :
    (served : List Slot) (hash : Str) (i s : ℕ)
    → IsOnlyAt served hash s
    → served_positions_of served hash i ≡ (i + s) ∷ []
unfolding served_positions_of
served_positions_of-only [] hash i s h = let at = (h s).1 refl in cc
served_positions_of-only (none ∷ served) hash i zero h = let at = (h 0).1 refl in cc
served_positions_of-only (none ∷ served) hash i (suc s) h =
    served_positions_of-only served hash (suc i) s (only_behind none served hash s h)
    ∙ ap (λ n. n ∷ []) (omega arith)
served_positions_of-only (some g ∷ served) hash i zero h =
    let here = (h 0).1 refl in
    let held : g ≡ hash = cc in
    let yes_eq : str_eq g hash ≡ true = ap (λ t. str_eq t hash) held ∙ str_eq_refl hash in
    let rest : served_positions_of served hash (suc i) ≡ [] =
      served_positions_of-absent served hash (suc i)
        (λ q at. absurd (omega (arith, (h (suc q)).0 at))) in
    rw (yes_eq, rest) (ap (λ n. n ∷ []) (omega arith))
served_positions_of-only (some g ∷ served) hash i (suc s) h = elim (Bool-cases (str_eq g hash)) [
  | inl same ↦ absurd (
      let z : 0 ≡ suc s = (h 0).0 (ap (λ t. some (some t)) (str_eq_sound g hash same)) in
      omega (arith, z))
  | inr other ↦ rw other (
      served_positions_of-only served hash (suc i) s (only_behind (some g) served hash s h)
      ∙ ap (λ n. n ∷ []) (omega arith))
]

served_positions_of-Member :
    (served : List Slot) (hash : Str) (i q : ℕ)
    → get_elem? served q ≡ some (some hash)
    → Member (i + q) (served_positions_of served hash i)
unfolding served_positions_of
served_positions_of-Member [] hash i q at = cc
served_positions_of-Member (none ∷ served) hash i zero at = cc
served_positions_of-Member (none ∷ served) hash i (suc q) at =
    subst (λ n. Member n (served_positions_of served hash (suc i))) (omega arith)
      (served_positions_of-Member served hash (suc i) q at)
served_positions_of-Member (some g ∷ served) hash i zero at =
    let held : g ≡ hash = cc in
    let yes_eq : str_eq g hash ≡ true = ap (λ t. str_eq t hash) held ∙ str_eq_refl hash in
    rw yes_eq (inl (omega arith))
served_positions_of-Member (some g ∷ served) hash i (suc q) at =
    let later : Member (i + suc q) (served_positions_of served hash (suc i)) =
      subst (λ n. Member n (served_positions_of served hash (suc i))) (omega arith)
        (served_positions_of-Member served hash (suc i) q at) in
    elim (Bool-cases (str_eq g hash)) [
      | inl same ↦ rw same (inr later)
      | inr other ↦ rw other later
    ]

-- A single served position is the only one.
pub single-IsOnlyAt :
    (served : List Slot) (hash : Str) (p : ℕ)
    → served_positions_of served hash 0 ≡ p ∷ []
    → IsOnlyAt served hash p
single-IsOnlyAt served hash p e q = (
  λ at. elim (subst (Member (0 + q)) e (served_positions_of-Member served hash 0 q at)) [
    | inl same ↦ omega (arith, same)
    | inr later ↦ absurd later
  ],
  λ same. ap (get_elem? served) (same ∙ omega arith) ∙ (positions-get served hash 0 p [] e).1,
)

range_ext :
    (a b from to : ℕ)
    → a ≡ from
    → b ≡ to
    → Path ServedRange (record { from = a; to = b }) (record { from = from; to = to })
range_ext a b from to e f =
    ap (λ x. record { from = x; to = b }) e ∙ ap (λ x. record { from = from; to = x }) f

-- Either both anchors were served once, or the range falls back to the lines.
range_by-cases :
    (input : DriftInput) (starts ends : List ℕ)
    → ((s : ℕ) × (e : ℕ) × (starts ≡ s ∷ []) × (ends ≡ e ∷ []))
      ⊎ (range_by starts ends input.range
          ≡ ordered_range (input.range.start_line - 1) (input.range.end_line - 1))
range_by-cases input [] ends = inr refl
range_by-cases input (s ∷ t ∷ starts) ends = inr refl
range_by-cases input (s ∷ []) [] = inr refl
range_by-cases input (s ∷ []) (e ∷ f ∷ ends) = inr refl
range_by-cases input (s ∷ []) (e ∷ []) = inl (s, e, refl, refl)

pub served_range-IsServedRange :
    (input : DriftInput) (from to : ℕ)
    → IsServedRange input from to
    → served_range input ≡ record { from = from; to = to }
unfolding served_range
served_range-IsServedRange input from to (inl (s, e, a, b, f, t)) =
    let starts : served_positions_of input.served input.range.start_hash 0 ≡ s ∷ [] =
      served_positions_of-only input.served input.range.start_hash 0 s a
      ∙ ap (λ n. n ∷ []) (omega arith) in
    let ends : served_positions_of input.served input.range.end_hash 0 ≡ e ∷ [] =
      served_positions_of-only input.served input.range.end_hash 0 e b
      ∙ ap (λ n. n ∷ []) (omega arith) in
    rw (starts, ends) (range_ext (min s e) (max s e) from to (sym f) (sym t))
served_range-IsServedRange input from to (inr (several, f, t)) =
    elim (range_by-cases input (served_positions_of input.served input.range.start_hash 0)
      (served_positions_of input.served input.range.end_hash 0)) [
        | inl (s, e, a, b) ↦ absurd (
            several (
              s,
              e,
              single-IsOnlyAt input.served input.range.start_hash s a,
              single-IsOnlyAt input.served input.range.end_hash e b,
            ))
        | inr fallback ↦
            fallback
            ∙ range_ext (min (input.range.start_line - 1) (input.range.end_line - 1))
                (max (input.range.start_line - 1) (input.range.end_line - 1)) from to (sym f)
                (sym t)
      ]
