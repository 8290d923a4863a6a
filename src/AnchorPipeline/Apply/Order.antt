-- ===== src/AnchorPipeline/Apply/Order.antt =====
-- A resolved edit runs forwards: reversed anchors are swapped before the prefixes and the resolution.
use mathlib.Core.Path.{subst}
use dsh_better_edit.Prelude.{
  ℕ, zero, suc, ◌+◌, ◌-◌, ◌≤◌, ◌≡◌, ◌≢◌, refl, sym, ap, ◌∙◌, Bool, true, false, Option, none, some,
  List, [], ◌∷◌, Str, leb, get_elem?, str_eq, arith, Bool-cases, inl, inr, str_eq_sound,
  str_eq_refl,
}
use dsh_better_edit.HashAssign.Stable.{last_index}
use dsh_better_edit.AnchorPipeline.{
  HEdit, Rejection, bad_anchor, aborted, misaligned, bad_payload, malformed_anchor, stale_anchor,
  suspicious_text, stale_range, unserved_range, unknown_anchor, foreign_anchor, unverified_range,
  target_lost, empty_range, space_exhausted, Result, ok, err, >>=-eq-ok,
}
use dsh_better_edit.AnchorPipeline.Resolve.{line_by_hash, swap_if, swap_reversed_ranges}
use dsh_better_edit.AnchorPipeline.Resolve.Laws.{IsResolved, IsOnly}
use dsh_better_edit.AnchorPipeline.Prefixes.{
  StripResult, Stripped, strip_bare, strip_diff, count_matched, refuse_stripped, refuse_diff,
  strip_prefixes, strip_bare_prefixes, strip_diff_prefixes,
}
use dsh_better_edit.AnchorPipeline.Apply.{
  Options, PrefixFixed, Prepared, prepare, fix_prefixes, judge_echo, recover, catch_prefix,
  stripped_echo,
}
use dsh_better_edit.AnchorPipeline.Leases.{Slot, Echo}
use dsh_better_edit.AnchorPipeline.Apply.Frame.{IsPrepared, prepare-IsPrepared}

refuse_stripped-same :
    (edit : HEdit) (r : StripResult) (n : ℕ) (f : HEdit)
    → refuse_stripped edit r n ≡ ok f
    → f ≡ edit
refuse_stripped-same edit r zero f h = cc
refuse_stripped-same edit r (suc n) f h = cc

refuse_diff-same :
    (edit : HEdit) (r : StripResult) (s : List Stripped) (f : HEdit)
    → refuse_diff edit r s ≡ ok f
    → f ≡ edit
refuse_diff-same edit r [] f h = cc
refuse_diff-same edit r (s ∷ ss) f h = cc

strip_prefixes-same :
    (edit : HEdit) (hashes : List Str) (f : HEdit) → strip_prefixes edit hashes ≡ ok f → f ≡ edit
unfolding strip_prefixes strip_bare_prefixes strip_diff_prefixes
strip_prefixes-same edit hashes f h =
    let r : StripResult = strip_bare hashes edit.content_lines 0 in
    let (bare, one, two) =
      >>=-eq-ok (refuse_stripped edit r (count_matched r.stripped)) strip_diff_prefixes f h in
    let q : StripResult = strip_diff bare.content_lines 0 in
    refuse_diff-same bare q q.stripped f two
    ∙ refuse_stripped-same edit r (count_matched r.stripped) bare one

judge_echo-same :
    (error : Rejection) (edit : HEdit) (literal : Bool) (line : Option ℕ) (e : Option Echo)
    (f : PrefixFixed)
    → judge_echo error edit literal line e ≡ ok f
    → f.edit ≡ edit
judge_echo-same error edit literal line none f h = cc
judge_echo-same error edit true line (some e) f h =
    let same : f ≡ record { edit = edit; bypassed = true } = cc in ap (λ x. x.edit) same
judge_echo-same error edit false line (some e) f h = cc

-- The prefix steps pass an edit on as it is, or refuse it.
fix_prefixes-same :
    (edit : HEdit) (hashes : List Str) (served : Option (List Slot)) (literal : Bool)
    (f : PrefixFixed)
    → fix_prefixes edit hashes served literal ≡ ok f
    → f.edit ≡ edit
unfolding fix_prefixes
fix_prefixes-same edit hashes served literal f h = by_result (strip_prefixes edit hashes) refl h
  where
    recovered :
        (slots : Option (List Slot)) (e : Rejection)
        → recover edit hashes slots literal e ≡ ok f
        → f.edit ≡ edit
    recovered none e k = cc
    recovered (some slots) (bad_anchor locations reason stripped) k =
        let line : Option ℕ = line_by_hash hashes stripped.from.hash in
        judge_echo-same (bad_anchor locations reason stripped) edit literal line
          (stripped_echo edit.content_lines stripped.content_lines slots line) f k
    recovered (some slots) aborted k = cc
    recovered (some slots) misaligned k = cc
    recovered (some slots) (bad_payload a) k = cc
    recovered (some slots) (malformed_anchor a b) k = cc
    recovered (some slots) (stale_anchor a) k = cc
    recovered (some slots) (suspicious_text a b c) k = cc
    recovered (some slots) (stale_range a b c) k = cc
    recovered (some slots) (unserved_range a b c) k = cc
    recovered (some slots) (unknown_anchor a) k = cc
    recovered (some slots) (foreign_anchor a b) k = cc
    recovered (some slots) (unverified_range a b) k = cc
    recovered (some slots) (target_lost a) k = cc
    recovered (some slots) empty_range k = cc
    recovered (some slots) (space_exhausted a b) k = cc

    by_result :
        (m : Result HEdit)
        → strip_prefixes edit hashes ≡ m
        → catch_prefix edit hashes served literal m ≡ ok f
        → f.edit ≡ edit
    by_result (ok g) e k =
        let same : f ≡ record { edit = g; bypassed = false } = cc in
        ap (λ x. x.edit) same ∙ strip_prefixes-same edit hashes g e
    by_result (err e) _ k = recovered served e k

last_index-nowhere :
    (h : Str) (hs : List Str) (k : ℕ)
    → ((j : ℕ) → get_elem? hs j ≢ some h)
    → last_index h hs k ≡ none
unfolding last_index
last_index-nowhere h [] k nowhere = refl
last_index-nowhere h (x ∷ hs) k nowhere = elim (Bool-cases (str_eq h x)) [
  | inl same ↦ absurd (nowhere 0 (ap some (sym (str_eq_sound h x same))))
  | inr other ↦ ground (arith, last_index-nowhere h hs (suc k) (λ j p. nowhere (suc j) p), other)
]

last_index-only :
    (h : Str) (hs : List Str) (k i : ℕ)
    → get_elem? hs i ≡ some h
    → ((j : ℕ) → get_elem? hs j ≡ some h → j ≡ i)
    → last_index h hs k ≡ some (k + i)
unfolding last_index
last_index-only h [] k i there only = cc
last_index-only h (x ∷ hs) k zero there only =
    let same : x ≡ h = cc in
    let gone : last_index h hs (suc k) ≡ none =
      last_index-nowhere h hs (suc k)
        (λ j p. (let bad : suc j ≡ 0 = only (suc j) p in absurd (omega arith))) in
    rw (gone, same) (ground (arith, str_eq_refl h))
last_index-only h (x ∷ hs) k (suc i) there only = ground (
  arith,
  last_index-only h hs (suc k) i there
      (λ j p. (let same : suc j ≡ suc i = only (suc j) p in omega arith)),
)

line_by_hash-IsOnly :
    (hs : List Str) (h : Str) (line : ℕ) → IsOnly hs h line → line_by_hash hs h ≡ some line
unfolding line_by_hash
line_by_hash-IsOnly hs h line o =
    let at : last_index h hs 0 ≡ some (0 + (line - 1)) =
      last_index-only h hs 0 (line - 1) o.there
        (λ j p. (let same : suc j ≡ line = o.only j p in omega arith)) in
    let back : suc (0 + (line - 1)) ≡ line = omega (arith, o.starts) in
    rw (at, line_by_hash) (ap some back)

module _ (hashes : List Str) (edit : HEdit) (m n : ℕ) where
  swapped_by :
      (s e : Option ℕ)
      → line_by_hash hashes edit.from.hash ≡ s
      → line_by_hash hashes edit.to.hash ≡ e
      → line_by_hash hashes (swap_if edit s e).edit.from.hash ≡ some m
      → line_by_hash hashes (swap_if edit s e).edit.to.hash ≡ some n
      → m ≤ n
  swapped_by none e p q h k = cc
  swapped_by (some a) none p q h k = cc
  swapped_by (some a) (some b) p q h k = elim (Bool-cases (leb a b)) [
    | inl inside ↦
        (let first : line_by_hash hashes edit.from.hash ≡ some m = rw inside at h in
          let last : line_by_hash hashes edit.to.hash ≡ some n = rw inside at k in
          let at_m : a ≡ m = cc in let at_n : b ≡ n = cc in ground (arith, inside))
    | inr reversed ↦
        (let first : line_by_hash hashes edit.to.hash ≡ some m = rw reversed at h in
          let last : line_by_hash hashes edit.from.hash ≡ some n = rw reversed at k in
          let at_m : b ≡ m = cc in let at_n : a ≡ n = cc in ground (arith, reversed))
  ]

swap_if-content :
    (edit : HEdit) (s e : Option ℕ) → (swap_if edit s e).edit.content_lines ≡ edit.content_lines
swap_if-content edit none e = refl
swap_if-content edit (some a) none = refl
swap_if-content edit (some a) (some b) = elim (Bool-cases (leb a b)) [
  | inl inside ↦ rw inside refl
  | inr reversed ↦ rw reversed refl
]

-- An edit that comes through the steps up to the resolved edit writes just the lines that it was given,
-- without a change, and its first line does not stand behind its last, whichever order its anchors had.
pub prepare-ordered :
    (xxh32 : Str → ℕ) (content : Str) (edit : HEdit) (o : Options) (p : Prepared)
    → prepare xxh32 content edit o ≡ ok p
    → (p.edit.content_lines ≡ edit.content_lines) × (p.edit.from.line ≤ p.edit.to.line)
unfolding swap_reversed_ranges
prepare-ordered xxh32 content edit o p h =
    let i : IsPrepared xxh32 content edit o p = prepare-IsPrepared xxh32 content edit o p h in
    let hashes : List Str = p.file_hashes in
    let s : Option ℕ = line_by_hash hashes edit.from.hash in
    let e : Option ℕ = line_by_hash hashes edit.to.hash in
    let swapped : HEdit = (swap_if edit s e).edit in
    let same : p.fixed.edit ≡ swapped =
      fix_prefixes-same swapped hashes o.served o.literal p.fixed i.stripped in
    let r : IsResolved swapped hashes p.edit =
      subst (λ t. IsResolved t hashes p.edit) same i.resolved_edit in
    (
      r.same_lines ∙ swap_if-content edit s e,
      swapped_by hashes edit p.edit.from.line p.edit.to.line s e refl refl
          (line_by_hash-IsOnly hashes swapped.from.hash p.edit.from.line r.from_only)
          (line_by_hash-IsOnly hashes swapped.to.hash p.edit.to.line r.to_only),
    )
