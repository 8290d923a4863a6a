-- ===== src/Prelude/Members.antt =====
-- Predicates on lists by recursion, which the tactics read and build.
use Prim.Native.Nat.{ℕ, zero, suc}
use mathlib.Core.Path.{◌≡◌}
use mathlib.Core.Logic.{◌≢◌, ◌↔◌, ◌⊎◌, inl, inr}
use mathlib.Core.Option.{none, some}
use mathlib.Core.List.{List, [], ◌∷◌, ◌++◌}
use dsh_better_edit.Prelude.Lists.{get_elem?}

abbrev pub All {ℓ κ} : {A : Type ℓ} → (A → Type κ) → List A → Type κ
All P [] = Unit
All P (x ∷ xs) = P x × All P xs

-- `a` is no member of the list.
abbrev pub NotIn {ℓ} : {A : Type ℓ} → A → List A → Type ℓ
NotIn a [] = Unit
NotIn a (x ∷ xs) = (a ≢ x) × NotIn a xs

-- `a` is a member of the list.
abbrev pub Member : {A : Type 0} → A → List A → Type 0
Member a [] = ⊥
Member a (x ∷ xs) = (a ≡ x) ⊎ Member a xs

-- No two members are equal.
abbrev pub Distinct {ℓ} : {A : Type ℓ} → List A → Type ℓ
Distinct [] = Unit
Distinct (x ∷ xs) = NotIn x xs × Distinct xs

pub All-get_elem? {ℓ κ} :
    {A : Type ℓ} (P : A → Type κ) (xs : List A) (i : ℕ) (a : A)
    → All P xs
    → get_elem? xs i ≡ some a
    → P a
All-get_elem? P [] i a h e = absurd (none-ne-some e)
  where
    none-ne-some : none ≡ some a → ⊥
    none-ne-some p = cc
All-get_elem? P (x ∷ xs) zero a (p, h) e = All-head e
  where
    All-head : some x ≡ some a → P a
    All-head q = let same : x ≡ a = cc in rw (← same) p
All-get_elem? P (x ∷ xs) (suc i) a (p, h) e = All-get_elem? P xs i a h e

pub NotIn-append {ℓ} :
    {A : Type ℓ} (a : A) (xs ys : List A) → NotIn a xs → NotIn a ys → NotIn a (xs ++ ys)
NotIn-append a [] ys h k = k
NotIn-append a (x ∷ xs) ys (p, h) k = (p, NotIn-append a xs ys h k)

pub Member-append :
    {A : Type 0} (a : A) (xs ys : List A) → Member a (xs ++ ys) ↔ (Member a xs ⊎ Member a ys)
Member-append a [] ys = (inr, λ m. elim m [ inl e ↦ absurd e | inr h ↦ h ])
Member-append a (x ∷ xs) ys = (
  λ m. elim m [
    | inl e ↦ inl (inl e)
    | inr h ↦ elim ((Member-append a xs ys).0 h) [ inl k ↦ inl (inr k) | inr k ↦ inr k ]
  ],
  λ m. elim m [
    | inl (inl e) ↦ inl e
    | inl (inr k) ↦ inr ((Member-append a xs ys).1 (inl k))
    | inr k ↦ inr ((Member-append a xs ys).1 (inr k))
  ],
)
