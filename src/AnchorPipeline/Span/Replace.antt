-- ===== src/AnchorPipeline/Span/Replace.antt =====
-- A replacement with content puts the new lines where the old ones were, and touches no other line.
use dsh_better_edit.Prelude.{
  ℕ, zero, suc, ◌+◌, ◌-◌, ◌<◌, ◌≤◌, ◌≡◌, refl, sym, ap, ◌∙◌, List, [], ◌∷◌, ◌++◌, Str, length,
  get_or, take, drop, arith, length-append,
}
use dsh_better_edit.Text.{split_nl, join_nl, split_lines}
use dsh_better_edit.Text.Lines.{AllLines}
use dsh_better_edit.AnchorPipeline.{line_at}
use dsh_better_edit.AnchorPipeline.Span.{
  line_starts, build_idx, Span, replace, noop, replace_span, assemble,
}
use dsh_better_edit.AnchorPipeline.Span.Offsets.{
  unlines, after, tail_of, IsEnd, line_starts-get, take-append, drop-append, cut, join_nl-take,
  split_nl-unlines, split_nl-after,
}
use dsh_better_edit.AnchorPipeline.Span.Form.{Form, Form-of}

pub take-AllLines : (i : ℕ) (ls : List Str) → AllLines ls → AllLines (take i ls)
take-AllLines zero ls h = tt
take-AllLines (suc i) [] h = tt
take-AllLines (suc i) (l ∷ ls) h = (h.0, take-AllLines i ls h.1)

pub drop-AllLines : (i : ℕ) (ls : List Str) → AllLines ls → AllLines (drop i ls)
drop-AllLines zero ls h = h
drop-AllLines (suc i) [] h = tt
drop-AllLines (suc i) (l ∷ ls) h = drop-AllLines i ls h.1

pub take-append_le {ℓ} :
    {A : Type ℓ} (i : ℕ) (xs ys : List A) → i ≤ length xs → take i (xs ++ ys) ≡ take i xs
take-append_le zero xs ys h = refl
take-append_le (suc i) [] ys h = elim h [ ]
take-append_le (suc i) (x ∷ xs) ys h = ap (λ t. x ∷ t) (take-append_le i xs ys (omega arith))

pub drop-append_le {ℓ} :
    {A : Type ℓ} (i : ℕ) (xs ys : List A) → i ≤ length xs → drop i (xs ++ ys) ≡ drop i xs ++ ys
drop-append_le zero xs ys h = refl
drop-append_le (suc i) [] ys h = elim h [ ]
drop-append_le (suc i) (x ∷ xs) ys h = drop-append_le i xs ys (omega arith)

-- The text before a line of the content.
pub take-start :
    (ls : List Str) (t : Str) (i : ℕ)
    → i < length ls
    → take (get_or (line_starts ls 0) i 0) (join_nl ls ++ t) ≡ unlines (take i ls)
take-start ls t i h =
    let before : Str = unlines (take i ls) in
    let at : get_or (line_starts ls 0) i 0 ≡ length before =
      line_starts-get ls 0 i h ∙ omega arith in
    ap (λ n. take n (join_nl ls ++ t)) at
    ∙ ap (take (length before)) (join_nl-take ls i t h)
    ∙ take-append before (join_nl (drop i ls) ++ t)

-- The text from a line on.
pub drop-start :
    (ls : List Str) (t : Str) (i : ℕ)
    → i < length ls
    → drop (get_or (line_starts ls 0) i 0) (join_nl ls ++ t) ≡ join_nl (drop i ls) ++ t
drop-start ls t i h =
    let before : Str = unlines (take i ls) in
    let at : get_or (line_starts ls 0) i 0 ≡ length before =
      line_starts-get ls 0 i h ∙ omega arith in
    ap (λ n. drop n (join_nl ls ++ t)) at
    ∙ ap (drop (length before)) (join_nl-take ls i t h)
    ∙ drop-append before (join_nl (drop i ls) ++ t)

-- The text behind a line.
pub drop-end :
    (ls : List Str) (t : Str) (i : ℕ)
    → i < length ls
    → drop (get_or (line_starts ls 0) i 0 + length (line_at ls i)) (join_nl ls ++ t)
      ≡ after (drop (suc i) ls) t
drop-end ls t i h =
    let head : Str = unlines (take i ls) ++ line_at ls i in
    let at : get_or (line_starts ls 0) i 0 + length (line_at ls i) ≡ length head =
      omega (arith, line_starts-get ls 0 i h, length-append (unlines (take i ls)) (line_at ls i)) in
    ap (λ n. drop n (join_nl ls ++ t)) at
    ∙ ap (drop (length head)) (cut ls t i h)
    ∙ drop-append head (after (drop (suc i) ls) t)

-- Lines joined with an end, with the lines `s` to `e` replaced by others.
replaced_text :
    (ls : List Str) (t : Str) (s e : ℕ) (l : Str) (new : List Str)
    → s < length ls
    → e < length ls
    → assemble
        (join_nl ls ++ t)
        (get_or (line_starts ls 0) s 0)
        (get_or (line_starts ls 0) e 0 + length (line_at ls e))
        (join_nl (l ∷ new))
      ≡ unlines (take s ls) ++ (join_nl (l ∷ new) ++ after (drop (suc e) ls) t)
unfolding assemble
replaced_text ls t s e l new hs he =
    ap
      (λ x.
        x
        ++ (join_nl (l ∷ new)
            ++ drop (get_or (line_starts ls 0) e 0 + length (line_at ls e)) (join_nl ls ++ t)))
      (take-start ls t s hs)
    ∙ ap (λ x. unlines (take s ls) ++ (join_nl (l ∷ new) ++ x)) (drop-end ls t e he)

replaced_split :
    (ls : List Str) (t : Str) (s e : ℕ) (l : Str) (new : List Str)
    → AllLines ls
    → IsEnd t
    → AllLines (l ∷ new)
    → split_nl (unlines (take s ls) ++ (join_nl (l ∷ new) ++ after (drop (suc e) ls) t))
      ≡ take s ls ++ (l ∷ new ++ (drop (suc e) ls ++ tail_of t))
replaced_split ls t s e l new plain end plain_new =
    split_nl-unlines (take s ls) (join_nl (l ∷ new) ++ after (drop (suc e) ls) t)
      (take-AllLines s ls plain)
    ∙ ap (λ x. take s ls ++ x)
        (split_nl-after l new (drop (suc e) ls) t end plain_new (drop-AllLines (suc e) ls plain))

module _ (content : Str) (s e : ℕ) (l : Str) (new : List Str) where
  replaced_with-Form :
      (f : Form content)
      → s < length (split_lines content)
      → e < length (split_lines content)
      → AllLines (l ∷ new)
      → split_nl (
          assemble content
            (get_or (line_starts (split_lines content) 0) s 0)
            (get_or (line_starts (split_lines content) 0) e 0
              + length (line_at (split_lines content) e))
            (join_nl (l ∷ new)))
        ≡ take s (split_nl content) ++ (l ∷ new ++ drop (suc e) (split_nl content))
  replaced_with-Form f inside_s inside_e plain =
      let ls : List Str = f.first ∷ f.rest in
      let hs : s < length ls = rw f.lines at inside_s in
      let he : e < length ls = rw f.lines at inside_e in
      rw f.lines (
        ap
          (λ x. split_nl (
            assemble x (get_or (line_starts ls 0) s 0)
              (get_or (line_starts ls 0) e 0 + length (line_at ls e)) (join_nl (l ∷ new))))
          f.joined
        ∙ ap split_nl (replaced_text ls f.end s e l new hs he)
        ∙ replaced_split ls f.end s e l new f.plain f.ends plain
        ∙ ap (λ x. x ++ (l ∷ new ++ (drop (suc e) ls ++ tail_of f.end)))
            (sym (ap (take s) f.raw ∙ take-append_le s ls (tail_of f.end) (omega arith)))
        ∙ ap (λ x. take s (split_nl content) ++ (l ∷ new ++ x))
            (sym
              (ap (drop (suc e)) f.raw ∙ drop-append_le (suc e) ls (tail_of f.end) (omega arith))))

-- The text that the pipeline assembles for a span.
abbrev pub apply_span : Str → Span → Str
apply_span content (replace start end replacement) = assemble content start end replacement
apply_span content (noop loc current) = content

module _ (content : Str) (start_line end_line : ℕ) (l : Str) (new : List Str) where
  -- An edit with content, of lines that the text has, turns the text's pieces between newlines into
  -- the pieces before the first edited line, the new lines, and the pieces behind the last edited
  -- line: no other line changes, and a newline at the end of the text stays.
  pub replace_span-lines :
      0 < start_line
      → start_line ≤ end_line
      → end_line ≤ length (split_lines content)
      → AllLines (l ∷ new)
      → split_nl
          (apply_span content (replace_span start_line end_line (l ∷ new) (build_idx content)))
        ≡ take (start_line - 1) (split_nl content) ++ (l ∷ new ++ drop end_line (split_nl content))
  unfolding replace_span build_idx
  replace_span-lines low order high plain =
      let last : suc (end_line - 1) ≡ end_line = omega arith in
      replaced_with-Form content (start_line - 1) (end_line - 1) l new (Form-of content)
        (omega arith) (omega arith) plain
      ∙ ap (λ n. take (start_line - 1) (split_nl content) ++ (l ∷ new ++ drop n (split_nl content)))
          last
