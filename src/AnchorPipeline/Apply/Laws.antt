-- ===== src/AnchorPipeline/Apply/Laws.antt =====
-- What an edit that succeeds has done: its span is what was served, and no other line changes.
use mathlib.Core.Path.{subst}
use dsh_better_edit.Prelude.{
  ℕ, ◌-◌, ◌<◌, ◌≤◌, ◌≡◌, refl, sym, ap, ◌∙◌, false, none, some, List, [], ◌∷◌, ◌++◌, Str, length,
  take, drop, get_elem?, ◌+◌, ◌≢◌, arith, Bool-cases, inl, inr, get_elem?-lt,
}
use dsh_better_edit.Text.{split_lines, split_nl}
use dsh_better_edit.Text.Lines.{AllLines}
use dsh_better_edit.AnchorPipeline.{HEdit, RhEdit, ok}
use dsh_better_edit.AnchorPipeline.Resolve.Laws.{IsOnly}
use dsh_better_edit.AnchorPipeline.Leases.{Slot, find_edit_hash_echo}
use dsh_better_edit.AnchorPipeline.Verify.{verify_served_range}
use dsh_better_edit.AnchorPipeline.Verify.Mirror.{IsGrounded, verify_served_range-IsGrounded}
use dsh_better_edit.AnchorPipeline.Span.{
  build_idx, replace, res_to_span, changed_span, lines_eq, original_lines,
}
use dsh_better_edit.AnchorPipeline.Span.Replace.{apply_span, replace_span-lines}
use dsh_better_edit.AnchorPipeline.Span.Delete.{delete_span-lines}
use dsh_better_edit.AnchorPipeline.Apply.{
  Options, Applied, Prepared, prepare, apply_edit, span_args, gate_lookup, first_echo,
}
use dsh_better_edit.AnchorPipeline.Apply.Order.{prepare-ordered}
use dsh_better_edit.AnchorPipeline.Apply.Openings.{first_echo-opening}
use dsh_better_edit.HashAssign.{hash_sep}
use dsh_better_edit.AnchorPipeline.Apply.Frame.{
  IsPrepared, IsFinished, IsApplied, apply_edit-IsApplied, prepare-IsPrepared,
}

-- The result `a` came from the resolved edit in `p`.
record IsFrom (xxh32 : Str → ℕ) (content : Str) (edit : HEdit) (o : Options) (p : Prepared)
    (a : Applied) : Type 0 where
  is_prepared : IsPrepared xxh32 content edit o p
  verified :
      (served : List Slot)
      → o.served ≡ some served
      → verify_served_range (span_args o p.edit p.file_hashes (split_lines content) served) ≡ ok tt
  no_echo :
      (served : List Slot)
      → o.served ≡ some served
      → o.literal ≡ false
      → gate_lookup edit p.fixed p.edit served ≡ none
  finished : IsFinished content p.edit a (res_to_span p.edit content (build_idx content))

module _ (xxh32 : Str → ℕ) (content : Str) (edit : HEdit) (o : Options) (p : Prepared)
    (a : Applied) where
  applied-IsFrom :
      prepare xxh32 content edit o ≡ ok p
      → apply_edit xxh32 content edit o ≡ ok a
      → IsFrom xxh32 content edit o p a
  applied-IsFrom prepared applied =
      let i : IsApplied xxh32 content edit o a =
        apply_edit-IsApplied xxh32 content edit o a applied in
      let same : ok i.prepared ≡ ok p = sym i.got ∙ prepared in
      let q : i.prepared ≡ p = cc in
      subst (λ t. IsFrom xxh32 content edit o t a) q
        (record {
          is_prepared = i.is_prepared;
          verified = i.verified;
          no_echo = i.no_echo;
          finished = i.finished;
        })

  -- An edit of a file with a served mirror and no leases succeeds only when every line of its span
  -- carries the anchor that was served at its own place, and every canonical text recorded there is
  -- still that of the line.
  pub apply_edit-IsGrounded :
      (served : List Slot)
      → prepare xxh32 content edit o ≡ ok p
      → apply_edit xxh32 content edit o ≡ ok a
      → o.served ≡ some served
      → o.lease_source ≡ none
      → IsGrounded (span_args o p.edit p.file_hashes (split_lines content) served)
  apply_edit-IsGrounded served prepared applied e mirrored =
      verify_served_range-IsGrounded (span_args o p.edit p.file_hashes (split_lines content) served)
        mirrored ((applied-IsFrom prepared applied).verified served e)

  -- An edit that is not declared literal succeeds on a served mirror only when none of its lines, as they
  -- were given, opens with the anchor and the separator that were served at the line's own position.
  pub apply_edit-no_echo :
      (served : List Slot)
      → prepare xxh32 content edit o ≡ ok p
      → apply_edit xxh32 content edit o ≡ ok a
      → o.served ≡ some served
      → o.literal ≡ false
      → (k : ℕ) (line hash rest : Str) → get_elem? edit.content_lines k ≡ some line
      → get_elem? served (p.edit.from.line - 1 + k) ≡ some (some hash)
      → line ≢ hash ++ hash_sep ∷ rest
  apply_edit-no_echo served prepared applied e plain k line hash rest at slot =
      first_echo-opening edit.content_lines served p.edit.from.line k line hash rest
        (first_echo (find_edit_hash_echo p.edit.content_lines served p.edit.from.line)
          (find_edit_hash_echo p.fixed.edit.content_lines served p.edit.from.line))
        ((applied-IsFrom prepared applied).no_echo served e plain) at slot

changed-or_noop :
    (r : RhEdit) (content : Str) (start end : ℕ) (s : Str)
    → res_to_span r content (build_idx content) ≡ replace start end s
    → res_to_span r content (build_idx content)
      ≡ changed_span r.from.line r.to.line r.content_lines content (build_idx content)
unfolding res_to_span
changed-or_noop r content start end s h =
    elim (Bool-cases
      (lines_eq (original_lines r.from.line r.to.line (build_idx content)) r.content_lines)) [
        | inl same ↦ ground (arith, h)
        | inr other ↦ rw other refl
      ]

module _ (xxh32 : Str → ℕ) (content : Str) (edit : HEdit) (o : Options) (p : Prepared)
    (a : Applied) where
  -- What an edit that is no no-op makes of the content, by the lines that it was given.
  changed-assembled :
      (new : List Str)
      → prepare xxh32 content edit o ≡ ok p
      → apply_edit xxh32 content edit o ≡ ok a
      → a.noop_edit ≡ none
      → edit.content_lines ≡ new
      → a.content
        ≡ apply_span content
            (changed_span p.edit.from.line p.edit.to.line new content (build_idx content))
  changed-assembled new prepared applied changed lines =
      let f : IsFrom xxh32 content edit o p a =
        applied-IsFrom xxh32 content edit o p a prepared applied in
      let (start, end, s, q) = f.finished.changed_noop changed in
      let given : p.edit.content_lines ≡ new =
        (prepare-ordered xxh32 content edit o p prepared).0 ∙ lines in
      f.finished.assembled
      ∙ ap (apply_span content) (changed-or_noop p.edit content start end s q)
      ∙ ap
          (λ t.
            apply_span content
              (changed_span p.edit.from.line p.edit.to.line t content (build_idx content)))
          given

  -- The lines of a resolved edit are lines of the content.
  prepared-inside :
      prepare xxh32 content edit o ≡ ok p
      → (0 < p.edit.from.line) × (p.edit.to.line ≤ length (split_lines content))
  prepared-inside prepared =
      let i : IsPrepared xxh32 content edit o p =
        prepare-IsPrepared xxh32 content edit o p prepared in
      let only : IsOnly p.file_hashes p.fixed.edit.to.hash p.edit.to.line =
        i.resolved_edit.to_only in
      let low : p.edit.to.line - 1 < length p.file_hashes =
        get_elem?-lt p.file_hashes (p.edit.to.line - 1) p.fixed.edit.to.hash only.there in
      (i.resolved_edit.from_only.starts, omega (arith, only.starts, low, i.aligned))

  -- An edit that writes lines without a newline in them and is not a no-op puts exactly these lines in
  -- the place of the lines of its span, and touches nothing else: the pieces of the new text between
  -- newlines are those before the span, the lines that were given, and those behind the span.
  pub apply_edit-untouched :
      (l : Str) (new : List Str)
      → prepare xxh32 content edit o ≡ ok p
      → apply_edit xxh32 content edit o ≡ ok a
      → a.noop_edit ≡ none
      → edit.content_lines ≡ l ∷ new
      → AllLines (l ∷ new)
      → split_nl a.content
        ≡ take (p.edit.from.line - 1) (split_nl content)
          ++ (l ∷ new ++ drop p.edit.to.line (split_nl content))
  apply_edit-untouched l new prepared applied changed lines plain =
      let (low, high) = prepared-inside prepared in
      ap split_nl (changed-assembled (l ∷ new) prepared applied changed lines)
      ∙ replace_span-lines content p.edit.from.line p.edit.to.line l new low
          (prepare-ordered xxh32 content edit o p prepared).1 high plain

  -- An edit without lines to write that is not a no-op and whose span ends before the last line removes
  -- the lines of its span and touches nothing else.
  pub apply_edit-deleted :
      prepare xxh32 content edit o ≡ ok p
      → apply_edit xxh32 content edit o ≡ ok a
      → a.noop_edit ≡ none
      → edit.content_lines ≡ []
      → p.edit.to.line < length (split_lines content)
      → split_nl a.content
        ≡ take (p.edit.from.line - 1) (split_nl content) ++ drop p.edit.to.line (split_nl content)
  apply_edit-deleted prepared applied changed lines inside =
      ap split_nl (changed-assembled [] prepared applied changed lines)
      ∙ delete_span-lines content p.edit.from.line p.edit.to.line (prepared-inside prepared).0
          (prepare-ordered xxh32 content edit o p prepared).1 inside

-- No edit empties a content: where the content after the edit is empty, the one before it was.
pub apply_edit-not_emptied :
    (xxh32 : Str → ℕ) (content : Str) (edit : HEdit) (o : Options) (a : Applied)
    → apply_edit xxh32 content edit o ≡ ok a
    → a.content ≡ []
    → content ≡ []
apply_edit-not_emptied xxh32 content edit o a applied e =
    let i : IsApplied xxh32 content edit o a =
      apply_edit-IsApplied xxh32 content edit o a applied in
    i.finished.kept_some e
