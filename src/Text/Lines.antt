-- ===== src/Text/Lines.antt =====
-- Splitting a text into lines and joining them again (src/utils.ts).
use dsh_better_edit.Prelude.{ℕ, ◌≡◌, ◌≢◌, refl, ap, List, [], ◌∷◌, ◌++◌, Str, arith}
use dsh_better_edit.Text.{lf, cons_head, split_nl, join_nl}

-- No code unit is a newline.
abbrev pub IsLine : Str → Type 0
IsLine [] = Unit
IsLine (c ∷ s) = (c ≢ lf) × IsLine s

abbrev pub AllLines : List Str → Type 0
AllLines [] = Unit
AllLines (l ∷ ls) = IsLine l × AllLines ls

pub split_nl-ne-nil : (s : Str) → split_nl s ≢ []
unfolding split_nl
split_nl-ne-nil [] h = cc
split_nl-ne-nil (c ∷ s) h = ground (arith, split_nl-ne-nil s)

join_nl-cons_head : (c : ℕ) (ls : List Str) → ls ≢ [] → join_nl (cons_head c ls) ≡ c ∷ join_nl ls
unfolding join_nl
join_nl-cons_head c [] h = absurd (h refl)
join_nl-cons_head c (l ∷ []) h = refl
join_nl-cons_head c (l ∷ m ∷ ls) h = refl

join_nl-nil_cons : (ls : List Str) → ls ≢ [] → join_nl ([] ∷ ls) ≡ lf ∷ join_nl ls
unfolding join_nl
join_nl-nil_cons [] h = absurd (h refl)
join_nl-nil_cons (l ∷ ls) h = refl

pub join_nl-split_nl : (s : Str) → join_nl (split_nl s) ≡ s
unfolding split_nl
join_nl-split_nl [] = unfold join_nl in refl
join_nl-split_nl (c ∷ s) = ground (
  arith,
  join_nl-split_nl s,
  join_nl-cons_head c (split_nl s) (split_nl-ne-nil s),
  join_nl-nil_cons (split_nl s) (split_nl-ne-nil s),
)

AllLines-cons_head : (c : ℕ) (ls : List Str) → c ≢ lf → AllLines ls → AllLines (cons_head c ls)
AllLines-cons_head c [] h k = ((h, tt), tt)
AllLines-cons_head c (l ∷ ls) h (p, k) = ((h, p), k)

pub split_nl-AllLines : (s : Str) → AllLines (split_nl s)
unfolding split_nl
split_nl-AllLines [] = (tt, tt)
split_nl-AllLines (c ∷ s) = ground (arith, split_nl-AllLines s, AllLines-cons_head c (split_nl s))

-- A line, a newline and a text split into the line and the text's lines.
pub split_nl-append_nl : (l s : Str) → IsLine l → split_nl (l ++ lf ∷ s) ≡ l ∷ split_nl s
unfolding split_nl
split_nl-append_nl [] s h = refl
split_nl-append_nl (c ∷ l) s (p, h) = ground (arith, split_nl-append_nl l s h)

pub split_nl_of_IsLine : (l : Str) → IsLine l → split_nl l ≡ l ∷ []
unfolding split_nl
split_nl_of_IsLine [] h = refl
split_nl_of_IsLine (c ∷ l) (p, h) = ground (arith, split_nl_of_IsLine l h)

pub split_nl-join_nl : (ls : List Str) → ls ≢ [] → AllLines ls → split_nl (join_nl ls) ≡ ls
unfolding join_nl
split_nl-join_nl [] h k = absurd (h refl)
split_nl-join_nl (l ∷ []) h (p, k) = split_nl_of_IsLine l p
split_nl-join_nl (l ∷ m ∷ ls) h (p, k) =
    rw (split_nl-append_nl l (join_nl (m ∷ ls)) p)
      (ap (λ t. l ∷ t) (split_nl-join_nl (m ∷ ls) (λ e. cc) k))
