-- ===== src/AnchorPipeline/Apply/Frame.antt =====
-- An edit that succeeds: what was resolved and verified, and what the new content is.
use mathlib.Core.Path.{subst}
use dsh_better_edit.Prelude.{
  ℕ, ◌≡◌, refl, sym, ap, ◌∙◌, Bool, false, Option, none, some, List, [], ◌∷◌, ◌++◌, Str, length,
}
use dsh_better_edit.Text.{split_lines}
use dsh_better_edit.AnchorPipeline.{
  HEdit, RhEdit, Warning, ok, ◌>>=◌, ◌>>◌, abort_if, >>=-eq-ok, >>-eq-ok,
}
use dsh_better_edit.AnchorPipeline.Resolve.{
  Validated, resolved, mismatches, val_edit, swap_reversed_ranges,
}
use dsh_better_edit.AnchorPipeline.Resolve.Laws.{IsResolved, val_edit-IsResolved}
use dsh_better_edit.AnchorPipeline.Leases.{Slot, Echo}
use dsh_better_edit.AnchorPipeline.Verify.{verify_served_range}
use dsh_better_edit.AnchorPipeline.Span.{
  build_idx, Span, replace, noop, res_to_span, assemble, assert_not_empty, resolved_range,
}
use dsh_better_edit.AnchorPipeline.Span.Replace.{apply_span}
use dsh_better_edit.AnchorPipeline.Apply.{
  Options, Applied, PrefixFixed, Prepared, prepare, apply_edit, finish, noop_result, replace_result,
  file_hashes_of, fix_prefixes, require_resolved, prepared_of, resolve_fixed, fix_and_resolve,
  span_args, gate_lookup, check_served_span, gate_echo,
}

-- What `prepare` has established.
pub record IsPrepared (xxh32 : Str → ℕ) (content : Str) (edit : HEdit) (o : Options) (p : Prepared)
    : Type 0 where
  pub hashed : file_hashes_of xxh32 content o.precomputed_hashes ≡ ok p.file_hashes
  pub stripped :
      fix_prefixes (swap_reversed_ranges edit p.file_hashes).edit p.file_hashes o.served o.literal
      ≡ ok p.fixed
  pub aligned : length p.file_hashes ≡ length (split_lines content)
  pub resolved_edit : IsResolved p.fixed.edit p.file_hashes p.edit

require-resolved :
    (v : Validated) (lines hashes : List Str) (r : RhEdit)
    → require_resolved v lines hashes ≡ ok r
    → v ≡ resolved r
require-resolved (resolved q) lines hashes r h = cc
require-resolved (mismatches ms) lines hashes r h = cc

module _ (xxh32 : Str → ℕ) (content : Str) (edit : HEdit) (o : Options) (p : Prepared) where
  resolved-IsPrepared :
      (hashes : List Str) (fixed : PrefixFixed)
      → file_hashes_of xxh32 content o.precomputed_hashes ≡ ok hashes
      → fix_prefixes (swap_reversed_ranges edit hashes).edit hashes o.served o.literal ≡ ok fixed
      → resolve_fixed (split_lines content) edit o hashes fixed ≡ ok p
      → IsPrepared xxh32 content edit o p
  resolved-IsPrepared hashes fixed hashed stripped h =
      let (v, valid, later) =
        >>=-eq-ok (val_edit fixed.edit (split_lines content) hashes o.aborted)
          (λ v. require_resolved v (split_lines content) hashes >>= λ r.
            ok (prepared_of edit hashes fixed r))
          p h in
      let (r, required, last) =
        >>=-eq-ok (require_resolved v (split_lines content) hashes)
          (λ r. ok (prepared_of edit hashes fixed r)) p later in
      let found : v ≡ resolved r = require-resolved v (split_lines content) hashes r required in
      let (aligned, one) =
        val_edit-IsResolved fixed.edit (split_lines content) hashes o.aborted r
          (valid ∙ ap ok found) in
      let same : prepared_of edit hashes fixed r ≡ p = cc in
      subst (λ q. IsPrepared xxh32 content edit o q) same
        (record { hashed = hashed; stripped = stripped; aligned = aligned; resolved_edit = one })

  pub prepare-IsPrepared : prepare xxh32 content edit o ≡ ok p → IsPrepared xxh32 content edit o p
  unfolding prepare build_idx
  prepare-IsPrepared h =
      let (_, started) =
        >>-eq-ok (abort_if o.aborted)
          (file_hashes_of xxh32 content o.precomputed_hashes
            >>= fix_and_resolve (split_lines content) edit o)
          p h in
      let (hashes, hashed, later) =
        >>=-eq-ok (file_hashes_of xxh32 content o.precomputed_hashes)
          (fix_and_resolve (split_lines content) edit o) p started in
      let (fixed, stripped, last) =
        >>=-eq-ok (fix_prefixes (swap_reversed_ranges edit hashes).edit hashes o.served o.literal)
          (resolve_fixed (split_lines content) edit o hashes) p later in
      resolved-IsPrepared hashes fixed hashed stripped last

-- The end of the pipeline: the content is what the span makes of the old one, an edit that is not a
-- no-op is a replacement, and no edit empties a content that was not empty.
pub record IsFinished (content : Str) (r : RhEdit) (a : Applied) (span : Span) : Type 0 where
  pub assembled : a.content ≡ apply_span content span
  pub ranged : a.range ≡ resolved_range r
  pub changed_noop :
      a.noop_edit ≡ none → (start : ℕ) × (end : ℕ) × (s : Str) × (span ≡ replace start end s)
  pub kept_some : a.content ≡ [] → content ≡ []

not-emptied :
    (content result : Str) → assert_not_empty content result ≡ ok tt → result ≡ [] → content ≡ []
not-emptied [] result h e = refl
not-emptied (c ∷ content) [] h e = cc
not-emptied (c ∷ content) (d ∷ result) h e = cc

module _ (content : Str) (r : RhEdit) (o : Options) (warnings : List Warning) (a : Applied) where
  finish-IsFinished :
      (span : Span) → finish content r o warnings span ≡ ok a → IsFinished content r a span
  unfolding finish
  finish-IsFinished (noop loc current) h =
      let same : a ≡ noop_result content r warnings loc current = cc in
      record {
        assembled = ap (λ x. x.content) same;
        ranged = ap (λ x. x.range) same;
        changed_noop = λ e.
            (let noted : some (record { loc = loc; current_content = current }) ≡ none =
                sym (ap (λ x. x.noop_edit) same) ∙ e in
              cc);
        kept_some = λ e. sym (ap (λ x. x.content) same) ∙ e;
      }
  finish-IsFinished (replace start end s) h =
      let result : Str = assemble content start end s in
      let (_, later) =
        >>-eq-ok (abort_if o.aborted)
          (assert_not_empty content result >> ok (replace_result content r o warnings result)) a
          h in
      let (kept, last) =
        >>-eq-ok (assert_not_empty content result) (ok (replace_result content r o warnings result))
          a later in
      let same : a ≡ replace_result content r o warnings result = cc in
      record {
        assembled = ap (λ x. x.content) same;
        ranged = ap (λ x. x.range) same;
        changed_noop = λ e. (start, end, s, refl);
        kept_some = λ e. not-emptied content result kept (sym (ap (λ x. x.content) same) ∙ e);
      }

-- What an edit that succeeds has gone through.
pub record IsApplied (xxh32 : Str → ℕ) (content : Str) (edit : HEdit) (o : Options) (a : Applied)
    : Type 0 where
  pub prepared : Prepared
  pub got : prepare xxh32 content edit o ≡ ok prepared
  pub is_prepared : IsPrepared xxh32 content edit o prepared
  pub verified :
      (served : List Slot)
      → o.served ≡ some served
      → verify_served_range
          (span_args o prepared.edit prepared.file_hashes (split_lines content) served)
        ≡ ok tt
  pub no_echo :
      (served : List Slot)
      → o.served ≡ some served
      → o.literal ≡ false
      → gate_lookup edit prepared.fixed prepared.edit served ≡ none
  pub finished :
      IsFinished content prepared.edit a (res_to_span prepared.edit content (build_idx content))

gate_echo-passed :
    (bypassed : Bool) (line : ℕ) (e : Option Echo) (notes : List Warning)
    → gate_echo false bypassed line e ≡ ok notes
    → e ≡ none
gate_echo-passed bypassed line none notes h = refl
gate_echo-passed bypassed line (some echo) notes h = cc

module _ (edit : HEdit) (o : Options) (p : Prepared) (lines : List Str) (notes : List Warning) where
  served-passed :
      (slots : Option (List Slot)) (served : List Slot)
      → check_served_span o edit p.fixed p.edit p.file_hashes lines slots ≡ ok notes
      → slots ≡ some served
      → (verify_served_range (span_args o p.edit p.file_hashes lines served) ≡ ok tt)
        × (o.literal ≡ false → gate_lookup edit p.fixed p.edit served ≡ none)
  served-passed none served h e = cc
  served-passed (some slots) served h e =
      let same : slots ≡ served = cc in
      let (found, gate, later) =
        >>=-eq-ok
          (gate_echo o.literal p.fixed.bypassed p.edit.from.line
            (gate_lookup edit p.fixed p.edit slots))
          (λ n. verify_served_range (span_args o p.edit p.file_hashes lines slots) >> ok n) notes
          h in
      let (verified, _) =
        >>-eq-ok (verify_served_range (span_args o p.edit p.file_hashes lines slots)) (ok found)
          notes later in
      subst
        (λ t.
          (verify_served_range (span_args o p.edit p.file_hashes lines t) ≡ ok tt)
          × (o.literal ≡ false → gate_lookup edit p.fixed p.edit t ≡ none))
        same
        (
          verified,
          λ plain.
              gate_echo-passed p.fixed.bypassed p.edit.from.line
                (gate_lookup edit p.fixed p.edit slots) found (rw plain at gate),
        )

pub apply_edit-IsApplied :
    (xxh32 : Str → ℕ) (content : Str) (edit : HEdit) (o : Options) (a : Applied)
    → apply_edit xxh32 content edit o ≡ ok a
    → IsApplied xxh32 content edit o a
unfolding apply_edit build_idx
apply_edit-IsApplied xxh32 content edit o a h =
    let lines : List Str = split_lines content in
    let (p, prepared, later) =
      >>=-eq-ok (prepare xxh32 content edit o)
        (λ p. check_served_span o edit p.fixed p.edit p.file_hashes lines o.served >>= λ notes.
          finish content p.edit o (p.warnings ++ notes)
            (res_to_span p.edit content (build_idx content)))
        a h in
    let (notes, checked, last) =
      >>=-eq-ok (check_served_span o edit p.fixed p.edit p.file_hashes lines o.served)
        (λ notes.
          finish content p.edit o (p.warnings ++ notes)
            (res_to_span p.edit content (build_idx content)))
        a later in
    record {
      prepared = p;
      got = prepared;
      is_prepared = prepare-IsPrepared xxh32 content edit o p prepared;
      verified = λ served e. (served-passed edit o p lines notes o.served served checked e).0;
      no_echo = λ served e. (served-passed edit o p lines notes o.served served checked e).1;
      finished =
          finish-IsFinished content p.edit o (p.warnings ++ notes) a
            (res_to_span p.edit content (build_idx content)) last;
    }
