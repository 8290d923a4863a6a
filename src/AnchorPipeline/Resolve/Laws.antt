-- ===== src/AnchorPipeline/Resolve/Laws.antt =====
-- What `valEdit` and `swapReversedRanges` guarantee.
use dsh_better_edit.Prelude.{
  ℕ, zero, suc, ◌+◌, ◌-◌, ◌<◌, ◌≡◌, ◌≢◌, refl, sym, ap, ◌∙◌, Bool, false, some, List, [], ◌∷◌, Str,
  length, str_eq, get_elem?, arith, Bool-cases, inl, inr, str_eq_sound, str_eq-ne,
}
use dsh_better_edit.AnchorPipeline.{Anchor, HEdit, RAnchor, RhEdit, ok, ◌>>◌, abort_if, >>-eq-ok}
use dsh_better_edit.AnchorPipeline.Resolve.{
  lines_with, Resolved, at_line, mismatch, res_anchor_from_map, resolved, val_bounds,
  assert_aligned, val_edit,
}

-- `line` (1-based) is the only line of the file with this anchor.
pub record IsOnly (file_hashes : List Str) (hash : Str) (line : ℕ) : Type 0 where
  pub starts : 0 < line
  pub there : get_elem? file_hashes (line - 1) ≡ some hash
  pub only : (i : ℕ) → get_elem? file_hashes i ≡ some hash → suc i ≡ line

abbrev Found : Str → List Str → ℕ → ℕ → Type 0
Found hash hs i line =
    (k : ℕ) × (line ≡ i + k)
    × (get_elem? hs k ≡ some hash)
    × ((j : ℕ) → get_elem? hs j ≡ some hash → j ≡ k)

skip :
    (hash h : Str) (hs : List Str)
    → str_eq h hash ≡ false
    → ((j : ℕ) → get_elem? hs j ≢ some hash)
    → (j : ℕ) → get_elem? (h ∷ hs) j ≢ some hash
skip hash h hs other rest zero p = str_eq-ne h hash other (let same : h ≡ hash = cc in same)
skip hash h hs other rest (suc j) p = rest j p

lines_with-nil :
    (hash : Str) (hs : List Str) (i : ℕ)
    → lines_with hash hs i ≡ []
    → (k : ℕ) → get_elem? hs k ≢ some hash
unfolding lines_with
lines_with-nil hash [] i e = λ k p. cc
lines_with-nil hash (h ∷ hs) i e = elim (Bool-cases (str_eq h hash)) [
  | inl same ↦ (let bad : i ∷ lines_with hash hs (suc i) ≡ [] = ground (arith, e) in cc)
  | inr other ↦
      (let rest : lines_with hash hs (suc i) ≡ [] = ground (arith, e) in
        skip hash h hs other (lines_with-nil hash hs (suc i) rest))
]

Found-first :
    (hash h : Str) (hs : List Str) (i : ℕ)
    → h ≡ hash
    → ((j : ℕ) → get_elem? hs j ≢ some hash)
    → Found hash (h ∷ hs) i i
Found-first hash h hs i same rest = (0, omega arith, ap some same, only)
  where
    only : (j : ℕ) → get_elem? (h ∷ hs) j ≡ some hash → j ≡ 0
    only zero p = refl
    only (suc j) p = absurd (rest j p)

Found-later :
    (hash h : Str) (hs : List Str) (i line : ℕ)
    → str_eq h hash ≡ false
    → Found hash hs (suc i) line
    → Found hash (h ∷ hs) i line
Found-later hash h hs i line other (k, at, there, rest) = (suc k, omega arith, there, only)
  where
    only : (j : ℕ) → get_elem? (h ∷ hs) j ≡ some hash → j ≡ suc k
    only zero p = absurd (str_eq-ne h hash other (let same : h ≡ hash = cc in same))
    only (suc j) p = ap suc (rest j p)

lines_with-one :
    (hash : Str) (hs : List Str) (i line : ℕ)
    → lines_with hash hs i ≡ line ∷ []
    → Found hash hs i line
unfolding lines_with
lines_with-one hash [] i line e = cc
lines_with-one hash (h ∷ hs) i line e = elim (Bool-cases (str_eq h hash)) [
  | inl same ↦
      (let all : i ∷ lines_with hash hs (suc i) ≡ line ∷ [] = ground (arith, e) in
        let first : i ≡ line = ground (arith, all) in
        let rest : lines_with hash hs (suc i) ≡ [] = ground (arith, all) in
        rw (sym first) (
          Found-first hash h hs i (str_eq_sound h hash same) (lines_with-nil hash hs (suc i) rest)))
  | inr other ↦
      (let rest : lines_with hash hs (suc i) ≡ line ∷ [] = ground (arith, e) in
        Found-later hash h hs i line other (lines_with-one hash hs (suc i) line rest))
]

at_line-IsOnly :
    (hash : Str) (hs : List Str) (line : ℕ) → lines_with hash hs 1 ≡ line ∷ [] → IsOnly hs hash line
at_line-IsOnly hash hs line e =
    let (k, at, there, only) = lines_with-one hash hs 1 line e in
    record {
      starts = omega arith;
      there = (let back : line - 1 ≡ k = omega arith in ap (get_elem? hs) back ∙ there);
      only = λ i p. (let same : i ≡ k = only i p in omega arith);
    }

res_anchor-at :
    (ref : Anchor) (lines : List ℕ) (r : RAnchor)
    → res_anchor_from_map ref lines ≡ at_line r
    → (lines ≡ r.line ∷ []) × (r.hash ≡ ref.hash)
unfolding res_anchor_from_map
res_anchor-at ref [] r e = cc
res_anchor-at ref (line ∷ []) r e =
    let same : record { line = line; hash = ref.hash } ≡ r = cc in
    (ap (λ x. x.line ∷ []) same, ap (λ x. x.hash) (sym same))
res_anchor-at ref (line ∷ other ∷ lines) r e = cc

-- What an edit resolves to: its lines are kept, and each bound is the one line with its anchor.
pub record IsResolved (edit : HEdit) (file_hashes : List Str) (r : RhEdit) : Type 0 where
  pub same_lines : r.content_lines ≡ edit.content_lines
  pub same_from : r.from.hash ≡ edit.from.hash
  pub same_to : r.to.hash ≡ edit.to.hash
  pub from_only : IsOnly file_hashes edit.from.hash r.from.line
  pub to_only : IsOnly file_hashes edit.to.hash r.to.line

bounds-resolved :
    (content : List Str) (s e : Resolved) (r : RhEdit)
    → val_bounds content s e ≡ resolved r
    → (r.content_lines ≡ content) × (s ≡ at_line r.from) × (e ≡ at_line r.to)
bounds-resolved content (at_line s) (at_line e) r h =
    let same : record { content_lines = content; from = s; to = e } ≡ r = cc in
    (
      ap (λ x. x.content_lines) (sym same),
      ap (λ x. at_line x.from) same,
      ap (λ x. at_line x.to) same,
    )
bounds-resolved content (mismatch m) (at_line e) r h = cc
bounds-resolved content (at_line s) (mismatch m) r h = cc
bounds-resolved content (mismatch m) (mismatch n) r h = cc

-- When `valEdit` resolves an edit, there is one anchor for each line of the file, the lines to write
-- are those of the edit, and each bound is the only line of the file that has the bound's anchor.
pub val_edit-IsResolved :
    (edit : HEdit) (file_lines file_hashes : List Str) (aborted : Bool) (r : RhEdit)
    → val_edit edit file_lines file_hashes aborted ≡ ok (resolved r)
    → (length file_hashes ≡ length file_lines) × IsResolved edit file_hashes r
unfolding val_edit
val_edit-IsResolved edit file_lines file_hashes aborted r h =
    let (aligned, later) =
      >>-eq-ok (assert_aligned file_lines file_hashes)
        (abort_if aborted
          >> ok (
              val_bounds edit.content_lines
                (res_anchor_from_map edit.from (lines_with edit.from.hash file_hashes 1))
                (res_anchor_from_map edit.to (lines_with edit.to.hash file_hashes 1))))
        (resolved r) h in
    let (_, last) =
      >>-eq-ok (abort_if aborted)
        (ok (
          val_bounds edit.content_lines
            (res_anchor_from_map edit.from (lines_with edit.from.hash file_hashes 1))
            (res_anchor_from_map edit.to (lines_with edit.to.hash file_hashes 1))))
        (resolved r) later in
    let (content, from, to) =
      bounds-resolved edit.content_lines
        (res_anchor_from_map edit.from (lines_with edit.from.hash file_hashes 1))
        (res_anchor_from_map edit.to (lines_with edit.to.hash file_hashes 1)) r cc in
    let (one_from, from_hash) =
      res_anchor-at edit.from (lines_with edit.from.hash file_hashes 1) r.from from in
    let (one_to, to_hash) = res_anchor-at edit.to (lines_with edit.to.hash file_hashes 1) r.to to in
    (
      ground (arith, aligned),
      record {
        same_lines = content;
        same_from = from_hash;
        same_to = to_hash;
        from_only = at_line-IsOnly edit.from.hash file_hashes r.from.line one_from;
        to_only = at_line-IsOnly edit.to.hash file_hashes r.to.line one_to;
      },
    )
