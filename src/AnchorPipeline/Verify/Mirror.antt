-- ===== src/AnchorPipeline/Verify/Mirror.antt =====
-- A span that passes verification without leases is, line by line, what was served at its own place.
use dsh_better_edit.Prelude.{
  ℕ, suc, ◌+◌, ◌-◌, ◌<◌, ◌≤◌, ◌≡◌, sym, ap, ◌∙◌, true, none, some, [], ◌∷◌, Str, get_elem?, arith,
  get_elem?-total,
}
use dsh_better_edit.HashAssign.{canon}
use dsh_better_edit.AnchorPipeline.{ok, line_at}
use dsh_better_edit.AnchorPipeline.Leases.{Route, mirror, served_evidence_route}
use dsh_better_edit.AnchorPipeline.Verify.{
  SpanArgs, served_positions_of, recorded_canon, check_canon, check_anchor, same_anchor,
  verify_served_range,
}
use dsh_better_edit.AnchorPipeline.Verify.Loop.{
  for_each-ok_zero, same_anchor_sound, canon_differs_sound,
}
use dsh_better_edit.AnchorPipeline.Verify.Passed.{
  Verified, verify_served_range-Verified, Verified-inside, Verified-ordered,
}

-- A recorded canon at line `k` of the window is the line's.
pub canon-kept :
    (a : SpanArgs) (route : Route) (v : Verified a route) (k : ℕ) (c : Str)
    → v.window.from + k ≤ v.window.to
    → recorded_canon a.served_canons (v.window.from + k) ≡ some c
    → canon (line_at a.file_lines (a.start_line - 1 + k)) ≡ c
canon-kept a route v k c b e =
    let round : check_canon a v.window v.rows k ≡ ok tt =
      for_each-ok_zero (v.window.to + 1 - v.window.from) (check_canon a v.window v.rows) k
        v.passed.canons (omega arith) in
    canon_differs_sound (recorded_canon a.served_canons (v.window.from + k))
      (line_at a.file_lines (a.start_line - 1 + k)) c (ground (arith, round)) e

-- Every line of the span [start_line, end_line] is grounded in what was served at its place.
pub record IsGrounded (a : SpanArgs) : Type 0 where
  pub starts : 0 < a.start_line
  pub ordered : a.start_line ≤ a.end_line
  pub start_once : (p : ℕ) × (served_positions_of a.served a.start_hash 0 ≡ p ∷ [])
  pub end_once : (p : ℕ) × (served_positions_of a.served a.end_hash 0 ≡ p ∷ [])
  pub anchors :
      (i : ℕ)
      → a.start_line ≤ suc i
      → i < a.end_line
      → (h : Str) × (get_elem? a.served i ≡ some (some h)) × (get_elem? a.file_hashes i ≡ some h)
  pub canons :
      (i : ℕ) (c : Str)
      → a.start_line ≤ suc i
      → i < a.end_line
      → recorded_canon a.served_canons i ≡ some c
      → canon (line_at a.file_lines i) ≡ c

anchor-kept :
    (a : SpanArgs) (v : Verified a mirror) (k : ℕ)
    → v.window.from + k ≤ v.window.to
    → (h : Str) × (get_elem? a.served (v.window.from + k) ≡ some (some h))
      × (get_elem? a.file_hashes (a.start_line - 1 + k) ≡ some h)
anchor-kept a v k b =
    let i : ℕ = v.window.from + k in
    let j : ℕ = a.start_line - 1 + k in
    let round : check_anchor mirror a v.window v.rows k ≡ ok tt =
      for_each-ok_zero (v.window.to + 1 - v.window.from) (check_anchor mirror a v.window v.rows) k
        v.passed.anchors (omega arith) in
    let (slot, there) = get_elem?-total a.served i (omega (arith, Verified-inside a mirror v)) in
    let same : same_anchor (get_elem? a.served i) (get_elem? a.file_hashes j) ≡ true =
      ground (arith, round) in
    let (h, filled, found) =
      same_anchor_sound slot (get_elem? a.file_hashes j)
        (ap (λ t. same_anchor t (get_elem? a.file_hashes j)) (sym there) ∙ same) in
    (h, there ∙ ap some filled, found)

mirror-IsGrounded : (a : SpanArgs) → Verified a mirror → IsGrounded a
mirror-IsGrounded a v =
    let o : (v.window.from ≤ v.window.to)
        × (v.window.to + a.start_line ≡ a.end_line + v.window.from) =
      Verified-ordered a mirror v in
    let at : v.window.from + 1 ≡ a.start_line = ground (arith, v.passed.identified) in
    record {
      starts = omega arith;
      ordered = omega arith;
      start_once = (v.start_position, v.start_once);
      end_once = (v.end_position, v.end_once);
      anchors = λ i l r.
          let k : ℕ = i - v.window.from in
          let e : v.window.from + k ≡ i = omega arith in
          let f : a.start_line - 1 + k ≡ i = omega arith in
          let (h, served, found) = anchor-kept a v k (omega arith) in
          (
            h,
            ap (get_elem? a.served) (sym e) ∙ served,
            ap (get_elem? a.file_hashes) (sym f) ∙ found,
          );
      canons = λ i c l r e.
          let k : ℕ = i - v.window.from in
          let g : v.window.from + k ≡ i = omega arith in
          let f : a.start_line - 1 + k ≡ i = omega arith in
          ap (λ t. canon (line_at a.file_lines t)) (sym f)
          ∙ canon-kept a mirror v k c (omega arith) (ap (recorded_canon a.served_canons) g ∙ e);
    }

pub verify_served_range-IsGrounded :
    (a : SpanArgs) → a.lease_source ≡ none → verify_served_range a ≡ ok tt → IsGrounded a
verify_served_range-IsGrounded a no_lease e =
    mirror-IsGrounded a
      (rw (ap served_evidence_route no_lease) at (verify_served_range-Verified a e))
