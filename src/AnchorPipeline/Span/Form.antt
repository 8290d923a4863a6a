-- ===== src/AnchorPipeline/Span/Form.antt =====
-- The two forms of a content: its lines joined, with one newline at the end or without.
use mathlib.Core.List.{append_assoc, append-nil}
use dsh_better_edit.Prelude.{
  ◌≡◌, refl, sym, ap, ◌∙◌, true, false, List, [], ◌∷◌, ◌++◌, Str, ◌==◌, if◌then◌else◌, arith,
  Bool-cases, inl, inr,
}
use dsh_better_edit.Text.{lf, cons_head, split_nl, join_nl, ends_with_nl, drop_last, split_lines}
use dsh_better_edit.Text.Lines.{AllLines, join_nl-split_nl, split_nl-AllLines, split_nl-ne-nil}
use dsh_better_edit.AnchorPipeline.Span.Offsets.{tail_of, IsEnd}

-- A text that ends with a newline splits into some lines and an empty one.
record Closed (s : Str) : Type 0 where
  first : Str
  rest : List Str
  split : split_nl s ≡ first ∷ rest ++ [] ∷ []

closed : (s : Str) → ends_with_nl s ≡ true → Closed s
unfolding ends_with_nl split_nl
closed [] h = cc
closed (c ∷ []) h = record { first = []; rest = []; split = ground arith }
closed (c ∷ d ∷ s) h =
    let ih : Closed (d ∷ s) = closed (d ∷ s) h in
    elim (Bool-cases (c == lf)) [
      | inl newline ↦ record {
        first = [];
        rest = ih.first ∷ ih.rest;
        split = rw (newline, split_nl) (ap (λ x. [] ∷ x) ih.split);
      }
      | inr other ↦ record {
        first = c ∷ ih.first;
        rest = ih.rest;
        split = rw (other, split_nl) (ap (cons_head c) ih.split);
      }
    ]

pub drop_last-append {ℓ} : {A : Type ℓ} (xs : List A) (a : A) → drop_last (xs ++ a ∷ []) ≡ xs
unfolding drop_last
drop_last-append [] a = refl
drop_last-append (x ∷ []) a = refl
drop_last-append (x ∷ y ∷ xs) a = ap (λ t. x ∷ t) (drop_last-append (y ∷ xs) a)

join_nl-closed :
    (l : Str) (ls : List Str) → join_nl (l ∷ ls ++ [] ∷ []) ≡ join_nl (l ∷ ls) ++ lf ∷ []
unfolding join_nl
join_nl-closed l [] = refl
join_nl-closed l (m ∷ ls) =
    ap (λ x. l ++ lf ∷ x) (join_nl-closed m ls)
    ∙ sym (append_assoc l (lf ∷ join_nl (m ∷ ls)) (lf ∷ []))

AllLines-init : (ls : List Str) (l : Str) → AllLines (ls ++ l ∷ []) → AllLines ls
AllLines-init [] l h = tt
AllLines-init (x ∷ ls) l h = (h.0, AllLines-init ls l h.1)

pub record Form (content : Str) : Type 0 where
  pub first : Str
  pub rest : List Str
  pub end : Str
  pub lines : split_lines content ≡ first ∷ rest
  pub joined : content ≡ join_nl (first ∷ rest) ++ end
  pub raw : split_nl content ≡ first ∷ rest ++ tail_of end
  pub plain : AllLines (first ∷ rest)
  pub ends : IsEnd end
  pub closed_iff : ends_with_nl content ≡ true → end ≡ lf ∷ []
  pub open_iff : ends_with_nl content ≡ false → end ≡ []

split_lines-open : (s : Str) → ends_with_nl s ≡ false → split_lines s ≡ split_nl s
unfolding split_lines split_nl
split_lines-open [] h = refl
split_lines-open (c ∷ s) h = ground arith

split_lines-closed : (s : Str) → ends_with_nl s ≡ true → split_lines s ≡ drop_last (split_nl s)
unfolding split_lines
split_lines-closed [] h = unfold split_nl drop_last ends_with_nl in cc
split_lines-closed (c ∷ s) h = ground arith

pub split_lines-cases :
    (s : Str) → split_lines s ≡ (if ends_with_nl s then drop_last (split_nl s) else split_nl s)
split_lines-cases s = elim (Bool-cases (ends_with_nl s)) [
  | inl closed_end ↦ rw closed_end (split_lines-closed s closed_end)
  | inr open_end ↦ rw open_end (split_lines-open s open_end)
]

open-Form :
    (content : Str) (first : Str) (rest : List Str)
    → ends_with_nl content ≡ false
    → split_nl content ≡ first ∷ rest
    → Form content
open-Form content first rest o e = record {
  first = first;
  rest = rest;
  end = [];
  lines = split_lines-open content o ∙ e;
  joined =
      sym (join_nl-split_nl content) ∙ ap join_nl e ∙ sym (append-nil (join_nl (first ∷ rest)));
  raw = e ∙ sym (append-nil (first ∷ rest));
  plain = rw e at (split_nl-AllLines content);
  ends = inl refl;
  closed_iff = λ c. cc;
  open_iff = λ _. refl;
}

closed-Form : (content : Str) → ends_with_nl content ≡ true → Form content
closed-Form content c =
    let s : Closed content = closed content c in
    record {
      first = s.first;
      rest = s.rest;
      end = lf ∷ [];
      lines =
          split_lines-closed content c
          ∙ ap drop_last s.split
          ∙ drop_last-append (s.first ∷ s.rest) [];
      joined = sym (join_nl-split_nl content) ∙ ap join_nl s.split ∙ join_nl-closed s.first s.rest;
      raw = s.split;
      plain = AllLines-init (s.first ∷ s.rest) [] (rw s.split at (split_nl-AllLines content));
      ends = inr refl;
      closed_iff = λ _. refl;
      open_iff = λ o. cc;
    }

pub Form-of : (content : Str) → Form content
Form-of content = elim (Bool-cases (ends_with_nl content)) [
  | inl c ↦ closed-Form content c
  | inr o ↦ by_split (split_nl content) refl o
]
  where
    by_split : (ls : List Str) → split_nl content ≡ ls → ends_with_nl content ≡ false → Form content
    by_split [] e o = absurd (split_nl-ne-nil content e)
    by_split (first ∷ rest) e o = open-Form content first rest o e
