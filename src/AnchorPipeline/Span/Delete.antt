-- ===== src/AnchorPipeline/Span/Delete.antt =====
-- A deletion removes the lines of its span, with their newlines, and no other line.
use mathlib.Core.Path.{subst}
use dsh_better_edit.Prelude.{
  ℕ, suc, ◌-◌, ◌<◌, ◌≤◌, ◌≡◌, sym, ap, ◌∙◌, List, [], ◌∷◌, ◌++◌, Str, length, get_or, take, drop,
  arith,
}
use dsh_better_edit.Text.{split_nl, join_nl, split_lines}
use dsh_better_edit.Text.Lines.{AllLines}
use dsh_better_edit.AnchorPipeline.{line_at}
use dsh_better_edit.AnchorPipeline.Span.{line_starts, build_idx, replace, delete_span, assemble}
use dsh_better_edit.AnchorPipeline.Span.Offsets.{
  unlines, tail_of, IsEnd, drop-line, split_nl-unlines, split_nl-end,
}
use dsh_better_edit.AnchorPipeline.Span.Form.{Form, Form-of}
use dsh_better_edit.AnchorPipeline.Span.Replace.{
  apply_span, take-start, drop-start, take-AllLines, drop-AllLines, take-append_le, drop-append_le,
}

-- Lines joined with an end, without the lines from `s` and before `e`.
deleted_text :
    (ls : List Str) (t : Str) (s e : ℕ)
    → s < length ls
    → e < length ls
    → assemble (join_nl ls ++ t) (get_or (line_starts ls 0) s 0) (get_or (line_starts ls 0) e 0) []
      ≡ unlines (take s ls) ++ (join_nl (drop e ls) ++ t)
unfolding assemble
deleted_text ls t s e hs he =
    ap (λ x. x ++ drop (get_or (line_starts ls 0) e 0) (join_nl ls ++ t)) (take-start ls t s hs)
    ∙ ap (λ x. unlines (take s ls) ++ x) (drop-start ls t e he)

split_nl-drop :
    (ls : List Str) (t : Str) (e : ℕ)
    → e < length ls
    → IsEnd t
    → AllLines ls
    → split_nl (join_nl (drop e ls) ++ t) ≡ drop e ls ++ tail_of t
split_nl-drop ls t e he end plain =
    let at : drop e ls ≡ line_at ls e ∷ drop (suc e) ls = drop-line ls e he in
    ap (λ x. split_nl (join_nl x ++ t)) at
    ∙ split_nl-end (line_at ls e) (drop (suc e) ls) t end
        (subst AllLines at (drop-AllLines e ls plain))
    ∙ ap (λ x. x ++ tail_of t) (sym at)

deleted_split :
    (ls : List Str) (t : Str) (s e : ℕ)
    → e < length ls
    → IsEnd t
    → AllLines ls
    → split_nl (unlines (take s ls) ++ (join_nl (drop e ls) ++ t))
      ≡ take s ls ++ (drop e ls ++ tail_of t)
deleted_split ls t s e he end plain =
    split_nl-unlines (take s ls) (join_nl (drop e ls) ++ t) (take-AllLines s ls plain)
    ∙ ap (λ x. take s ls ++ x) (split_nl-drop ls t e he end plain)

module _ (content : Str) (s e : ℕ) where
  deleted_with-Form :
      (f : Form content)
      → s < e
      → e < length (split_lines content)
      → split_nl (
          assemble content
            (get_or (line_starts (split_lines content) 0) s 0)
            (get_or (line_starts (split_lines content) 0) e 0)
            [])
        ≡ take s (split_nl content) ++ drop e (split_nl content)
  deleted_with-Form f order inside =
      let ls : List Str = f.first ∷ f.rest in
      let he : e < length ls = rw f.lines at inside in
      rw f.lines (
        ap
          (λ x.
            split_nl
              (assemble x (get_or (line_starts ls 0) s 0) (get_or (line_starts ls 0) e 0) []))
          f.joined
        ∙ ap split_nl (deleted_text ls f.end s e (omega arith) he)
        ∙ deleted_split ls f.end s e he f.ends f.plain
        ∙ ap (λ x. x ++ (drop e ls ++ tail_of f.end))
            (sym (ap (take s) f.raw ∙ take-append_le s ls (tail_of f.end) (omega arith)))
        ∙ ap (λ x. take s (split_nl content) ++ x)
            (sym (ap (drop e) f.raw ∙ drop-append_le e ls (tail_of f.end) (omega arith))))

delete_span-inside :
    (content : Str) (start_line end_line : ℕ)
    → end_line < length (split_lines content)
    → delete_span start_line end_line content (build_idx content)
      ≡ replace
          (get_or (line_starts (split_lines content) 0) (start_line - 1) 0)
          (get_or (line_starts (split_lines content) 0) end_line 0)
          []
unfolding delete_span build_idx
delete_span-inside content start_line end_line inside = ground arith

-- The deletion of lines before the text's last line removes just their pieces between newlines: those
-- before and those behind stay as they are, and so does a newline at the end of the text.
pub delete_span-lines :
    (content : Str) (start_line end_line : ℕ)
    → 0 < start_line
    → start_line ≤ end_line
    → end_line < length (split_lines content)
    → split_nl (apply_span content (delete_span start_line end_line content (build_idx content)))
      ≡ take (start_line - 1) (split_nl content) ++ drop end_line (split_nl content)
delete_span-lines content start_line end_line low order inside =
    ap (λ x. split_nl (apply_span content x))
      (delete_span-inside content start_line end_line inside)
    ∙ deleted_with-Form content (start_line - 1) end_line (Form-of content) (omega arith) inside
