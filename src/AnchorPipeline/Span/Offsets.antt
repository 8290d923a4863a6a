-- ===== src/AnchorPipeline/Span/Offsets.antt =====
-- Line offsets: where `lineStarts` says a line starts, it starts; and the two forms of a content, with
-- and without a newline at its end.
use mathlib.Core.List.{append_assoc, append-nil}
use dsh_better_edit.Prelude.{
  ℕ, zero, suc, ◌+◌, ◌<◌, ◌≡◌, ◌⊎◌, refl, sym, ap, ◌∙◌, List, [], ◌∷◌, ◌++◌, Str, length, get_or,
  take, drop, arith, inl, inr, length-append,
}
use dsh_better_edit.Text.{lf, split_nl, join_nl}
use dsh_better_edit.Text.Lines.{AllLines, split_nl-append_nl, split_nl-join_nl}
use dsh_better_edit.AnchorPipeline.{line_at}
use dsh_better_edit.AnchorPipeline.Span.{line_starts}

-- Lines with a newline after each.
abbrev pub unlines : List Str → Str
unlines [] = []
unlines (l ∷ ls) = l ++ lf ∷ unlines ls

-- What follows a line in a text: the other lines, each after a newline, and the end `t`.
abbrev pub after : List Str → Str → Str
after [] t = t
after (l ∷ ls) t = lf ∷ (join_nl (l ∷ ls) ++ t)

-- The line that the end of a text adds to `split`.
abbrev pub tail_of : Str → List Str
tail_of [] = []
tail_of (c ∷ t) = [] ∷ []

pub join_nl-cons : (l : Str) (ls : List Str) (t : Str) → join_nl (l ∷ ls) ++ t ≡ l ++ after ls t
unfolding join_nl
join_nl-cons l [] t = refl
join_nl-cons l (m ∷ ls) t = append_assoc l (lf ∷ join_nl (m ∷ ls)) t

pub join_nl-take :
    (ls : List Str) (i : ℕ) (t : Str)
    → i < length ls
    → join_nl ls ++ t ≡ unlines (take i ls) ++ (join_nl (drop i ls) ++ t)
join_nl-take ls zero t h = refl
join_nl-take [] (suc i) t h = absurd (omega arith)
join_nl-take (l ∷ []) (suc i) t h = absurd (omega arith)
join_nl-take (l ∷ m ∷ ls) (suc i) t h =
    join_nl-cons l (m ∷ ls) t
    ∙ ap (λ x. l ++ lf ∷ x) (join_nl-take (m ∷ ls) i t (omega arith))
    ∙ sym (append_assoc l (lf ∷ unlines (take i (m ∷ ls))) (join_nl (drop i (m ∷ ls)) ++ t))

pub line_starts-get :
    (ls : List Str) (offset i : ℕ)
    → i < length ls
    → get_or (line_starts ls offset) i 0 ≡ offset + length (unlines (take i ls))
unfolding line_starts
line_starts-get [] offset i h = absurd (omega arith)
line_starts-get (l ∷ []) offset zero h = omega arith
line_starts-get (l ∷ []) offset (suc i) h = absurd (omega arith)
line_starts-get (l ∷ m ∷ ls) offset zero h = omega arith
line_starts-get (l ∷ m ∷ ls) offset (suc i) h = omega (
  arith,
  line_starts-get (m ∷ ls) (offset + length l + 1) i (omega arith),
  length-append l (lf ∷ unlines (take i (m ∷ ls))),
)

pub take-append {ℓ} : {A : Type ℓ} (xs ys : List A) → take (length xs) (xs ++ ys) ≡ xs
take-append [] ys = refl
take-append (x ∷ xs) ys = ap (λ t. x ∷ t) (take-append xs ys)

pub drop-append {ℓ} : {A : Type ℓ} (xs ys : List A) → drop (length xs) (xs ++ ys) ≡ ys
drop-append [] ys = refl
drop-append (x ∷ xs) ys = drop-append xs ys

pub drop-line : (ls : List Str) (i : ℕ) → i < length ls → drop i ls ≡ line_at ls i ∷ drop (suc i) ls
drop-line [] i h = absurd (omega arith)
drop-line (l ∷ ls) zero h = refl
drop-line (l ∷ ls) (suc i) h = drop-line ls i (omega arith)

-- A text cut before line `i` and after it.
pub cut :
    (ls : List Str) (t : Str) (i : ℕ)
    → i < length ls
    → join_nl ls ++ t ≡ (unlines (take i ls) ++ line_at ls i) ++ after (drop (suc i) ls) t
cut ls t i h =
    join_nl-take ls i t h
    ∙ ap (λ x. unlines (take i ls) ++ (join_nl x ++ t)) (drop-line ls i h)
    ∙ ap (λ x. unlines (take i ls) ++ x) (join_nl-cons (line_at ls i) (drop (suc i) ls) t)
    ∙ sym (append_assoc (unlines (take i ls)) (line_at ls i) (after (drop (suc i) ls) t))

pub split_nl-unlines :
    (ls : List Str) (s : Str) → AllLines ls → split_nl (unlines ls ++ s) ≡ ls ++ split_nl s
split_nl-unlines [] s h = refl
split_nl-unlines (l ∷ ls) s (p, h) =
    ap split_nl (append_assoc l (lf ∷ unlines ls) s)
    ∙ split_nl-append_nl l (unlines ls ++ s) p
    ∙ ap (λ t. l ∷ t) (split_nl-unlines ls s h)

pub split_nl-join_nl_cons :
    (l : Str) (ls : List Str) (s : Str)
    → AllLines (l ∷ ls)
    → split_nl (join_nl (l ∷ ls) ++ lf ∷ s) ≡ l ∷ ls ++ split_nl s
unfolding join_nl
split_nl-join_nl_cons l [] s (p, h) = split_nl-append_nl l s p
split_nl-join_nl_cons l (m ∷ ls) s (p, h) =
    ap split_nl (append_assoc l (lf ∷ join_nl (m ∷ ls)) (lf ∷ s))
    ∙ split_nl-append_nl l (join_nl (m ∷ ls) ++ lf ∷ s) p
    ∙ ap (λ t. l ∷ t) (split_nl-join_nl_cons m ls s h)

-- The end of a text: nothing, or one newline.
abbrev pub IsEnd : Str → Type 0
IsEnd t = (t ≡ []) ⊎ (t ≡ lf ∷ [])

pub split_nl-end :
    (l : Str) (ls : List Str) (t : Str)
    → IsEnd t
    → AllLines (l ∷ ls)
    → split_nl (join_nl (l ∷ ls) ++ t) ≡ l ∷ ls ++ tail_of t
split_nl-end l ls t (inl e) h =
    rw (e, append-nil (join_nl (l ∷ ls)), append-nil ls) (split_nl-join_nl (l ∷ ls) (λ p. cc) h)
split_nl-end l ls t (inr e) h = rw e (split_nl-join_nl_cons l ls [] h ∙ unfold split_nl in refl)

-- A replacement and what follows it split into the replacement's lines and those that follow.
pub split_nl-after :
    (l : Str) (ls rest : List Str) (t : Str)
    → IsEnd t
    → AllLines (l ∷ ls)
    → AllLines rest
    → split_nl (join_nl (l ∷ ls) ++ after rest t) ≡ l ∷ ls ++ (rest ++ tail_of t)
split_nl-after l ls [] t e h k = split_nl-end l ls t e h
split_nl-after l ls (m ∷ ms) t e h k =
    split_nl-join_nl_cons l ls (join_nl (m ∷ ms) ++ t) h
    ∙ ap (λ x. l ∷ ls ++ x) (split_nl-end m ms t e k)
