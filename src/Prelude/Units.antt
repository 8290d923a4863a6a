-- ===== src/Prelude/Units.antt =====
-- JavaScript strings as lists of UTF-16 code units, with the comparisons that the program makes.
use Prim.Native.Nat.{ℕ}
use Prim.Native.Char.{code}
use Prim.Native.String.{String}
use mathlib.Core.Path.{◌≡◌, refl}
use mathlib.Core.Logic.{◌↔◌, ◌≢◌, inl, inr}
use mathlib.Core.Bool.{Bool, true, false, ◌&&◌}
use mathlib.Core.List.{List, [], ◌∷◌}
use native.Mathlib.Omega.{arith}
use dsh_better_edit.Prelude.Tests.{◌==◌, if◌then◌else◌, Bool-cases}
use dsh_better_edit.Prelude.Members.{Member}

abbrev pub Str : Type 0
Str = List ℕ

-- The code units of a literal; every literal of the program lies in the basic plane.
abbrev pub units : String → Str
units String.[] = []
units (String.◌∷◌ c s) = code c ∷ units s

-- `a === b` on strings.
unfoldable pub str_eq : Str → Str → Bool
str_eq [] [] = true
str_eq [] (b ∷ bs) = false
str_eq (a ∷ as') [] = false
str_eq (a ∷ as') (b ∷ bs) = (a == b) && str_eq as' bs

pub str_eq_refl : (s : Str) → str_eq s s ≡ true
unfolding str_eq
str_eq_refl [] = refl
str_eq_refl (a ∷ s) = ground (arith, str_eq_refl s)

pub str_eq_sound : (s t : Str) → str_eq s t ≡ true → s ≡ t
unfolding str_eq
str_eq_sound [] [] h = refl
str_eq_sound [] (b ∷ t) h = cc
str_eq_sound (a ∷ s) [] h = cc
str_eq_sound (a ∷ s) (b ∷ t) h = ground (arith, str_eq_sound s t)

pub str_eq_iff : (s t : Str) → (str_eq s t ≡ true) ↔ (s ≡ t)
str_eq_iff s t = (str_eq_sound s t, λ e. rw e (str_eq_refl t))

pub str_eq-ne : (s t : Str) → str_eq s t ≡ false → s ≢ t
str_eq-ne s t h e = let same : str_eq s t ≡ true = (str_eq_iff s t).1 e in cc

-- `s.startsWith(p)`.
unfoldable pub starts_with : Str → Str → Bool
starts_with s [] = true
starts_with [] (p ∷ ps) = false
starts_with (a ∷ s) (p ∷ ps) = (a == p) && starts_with s ps

-- `set.has(s)`, with the set as the list of its members.
unfoldable pub has : Str → List Str → Bool
has s [] = false
has s (t ∷ ts) = if str_eq s t then true else has s ts

pub has-Member : (s : Str) (xs : List Str) → (has s xs ≡ true) ↔ Member s xs
unfolding has
has-Member s [] = (λ e. cc, λ m. absurd m)
has-Member s (t ∷ ts) = (
  λ e. elim (Bool-cases (str_eq s t)) [
    | inl same ↦ inl (str_eq_sound s t same)
    | inr other ↦ inr ((has-Member s ts).0 (ground (arith, other, e)))
  ],
  λ m. elim m [
    | inl same ↦ rw (same, str_eq_refl t) refl
    | inr later ↦ ground (arith, (has-Member s ts).1 later)
  ],
)

pub has-NotMember : (s : Str) (xs : List Str) → (has s xs ≡ false) ↔ (¬ (Member s xs))
has-NotMember s xs = (
  λ e m. let found : has s xs ≡ true = (has-Member s xs).1 m in cc,
  λ out. elim (Bool-cases (has s xs)) [
    | inl found ↦ absurd (out ((has-Member s xs).0 found))
    | inr missing ↦ missing
  ],
)
