-- ===== src/AnchorPipeline/Verify/Passed.antt =====
-- What a verification that throws nothing has checked, step by step.
use dsh_better_edit.Prelude.{
  get_elem?-lt, ℕ, ◌+◌, ◌-◌, ◌<◌, ◌≤◌, ◌≡◌, ◌≢◌, refl, sym, ap, some, List, [], ◌∷◌, ◌++◌, Str,
  length, min, max, arith,
}
use dsh_better_edit.AnchorPipeline.{ServedRow, ok, >>-eq-ok, >>=-eq-ok}
use dsh_better_edit.AnchorPipeline.Leases.{Route, for_each, served_evidence_route, build_range_echo}
use dsh_better_edit.AnchorPipeline.Verify.{
  SpanArgs, Window, served_positions_of, place_window, scan_interior, check_length, check_identity,
  check_canon, check_retired, check_anchor, verify_window, verify_served_range,
  check_retired_boundary, intercept, refuse_positions, missing_of,
}
use dsh_better_edit.AnchorPipeline.Verify.Loop.{positions-get}

-- The steps of a verification that passed.
pub record Passed (a : SpanArgs) (route : Route) (w : Window) (rows : List ServedRow) : Type 0 where
  pub scanned : scan_interior route a w rows ≡ ok tt
  pub same_length : check_length a w rows ≡ ok tt
  pub identified : check_identity route a w rows ≡ ok tt
  pub canons : for_each (w.to + 1 - w.from) 0 (check_canon a w rows) ≡ ok tt
  pub unretired : for_each (w.to + 1 - w.from) 0 (check_retired a w rows) ≡ ok tt
  pub anchors : for_each (w.to + 1 - w.from) 0 (check_anchor route a w rows) ≡ ok tt

pub verify_window-Passed :
    (route : Route) (a : SpanArgs) (w : Window) (rows : List ServedRow)
    → verify_window route a w rows ≡ ok tt
    → Passed a route w rows
unfolding verify_window
verify_window-Passed route a w rows e =
    let p = >>-eq-ok (scan_interior route a w rows) _ tt e in
    let q = >>-eq-ok (check_length a w rows) _ tt p.1 in
    let r = >>-eq-ok (check_identity route a w rows) _ tt q.1 in
    let s = >>-eq-ok (for_each (w.to + 1 - w.from) 0 (check_canon a w rows)) _ tt r.1 in
    let t = >>-eq-ok (for_each (w.to + 1 - w.from) 0 (check_retired a w rows)) _ tt s.1 in
    record {
      scanned = p.0;
      same_length = q.0;
      identified = r.0;
      canons = s.0;
      unretired = t.0;
      anchors = t.1;
    }

-- Where the boundaries were placed, and all that passed.
pub record Verified (a : SpanArgs) (route : Route) : Type 0 where
  pub window : Window
  pub rows : List ServedRow
  pub start_position : ℕ
  pub end_position : ℕ
  pub start_once : served_positions_of a.served a.start_hash 0 ≡ start_position ∷ []
  pub end_once : served_positions_of a.served a.end_hash 0 ≡ end_position ∷ []
  pub from_is : window.from ≡ min start_position end_position
  pub to_is : window.to ≡ max start_position end_position
  pub boundaries : intercept route a ≡ ok tt
  pub passed : Passed a route window rows

record Placed (a : SpanArgs) (ps qs : List ℕ) (w : Window) : Type 0 where
  p : ℕ
  q : ℕ
  only_p : ps ≡ p ∷ []
  only_q : qs ≡ q ∷ []
  from_is : w.from ≡ min p q
  to_is : w.to ≡ max p q

refused-ne-ok :
    (a : SpanArgs) (ms : List Str) (rows : List ServedRow) (w : Window)
    → refuse_positions ms rows ≢ ok w
refused-ne-ok a [] rows w e = cc
refused-ne-ok a (m ∷ ms) rows w e = cc

place_window-Placed :
    (a : SpanArgs) (ps qs : List ℕ) (rows : List ServedRow) (w : Window)
    → place_window a ps qs rows ≡ ok w
    → Placed a ps qs w
place_window-Placed a (p ∷ []) (q ∷ []) rows w e =
    let same : record { from = min p q; to = max p q } ≡ w = ground arith in
    record {
      p = p;
      q = q;
      only_p = refl;
      only_q = refl;
      from_is = ap (λ (t : Window). t.from) (sym same);
      to_is = ap (λ (t : Window). t.to) (sym same);
    }
place_window-Placed a ps qs rows w e =
    absurd (refused-ne-ok a (missing_of a.start_hash ps ++ missing_of a.end_hash qs) rows w e)

pub verify_served_range-Verified :
    (a : SpanArgs)
    → verify_served_range a ≡ ok tt
    → Verified a (served_evidence_route a.lease_source)
unfolding verify_served_range
verify_served_range-Verified a e =
    let rows : List ServedRow = build_range_echo a.start_line a.end_line a.file_hashes in
    let route : Route = served_evidence_route a.lease_source in
    let ps : List ℕ = served_positions_of a.served a.start_hash 0 in
    let qs : List ℕ = served_positions_of a.served a.end_hash 0 in
    let s = >>-eq-ok (check_retired_boundary a rows) _ tt e in
    let t = >>-eq-ok (intercept route a) _ tt s.1 in
    let u : (w : Window) × (place_window a ps qs rows ≡ ok w)
        × (verify_window route a w rows ≡ ok tt) =
      >>=-eq-ok (place_window a ps qs rows) (λ w. verify_window route a w rows) tt t.1 in
    let placed : Placed a ps qs u.0 = place_window-Placed a ps qs rows u.0 u.1 in
    record {
      window = u.0;
      rows = rows;
      start_position = placed.p;
      end_position = placed.q;
      start_once = placed.only_p;
      end_once = placed.only_q;
      from_is = placed.from_is;
      to_is = placed.to_is;
      boundaries = t.0;
      passed = verify_window-Passed route a u.0 rows u.2;
    }

-- The window lies inside the served mirror.
pub Verified-inside :
    (a : SpanArgs) (route : Route) (v : Verified a route) → v.window.to < length a.served
Verified-inside a route v =
    let p = positions-get a.served a.start_hash 0 v.start_position [] v.start_once in
    let q = positions-get a.served a.end_hash 0 v.end_position [] v.end_once in
    omega (
      arith,
      v.to_is,
      get_elem?-lt a.served (v.start_position - 0) (some a.start_hash) p.1,
      get_elem?-lt a.served (v.end_position - 0) (some a.end_hash) q.1,
    )

pub Verified-ordered :
    (a : SpanArgs) (route : Route) (v : Verified a route)
    → (v.window.from ≤ v.window.to) × (v.window.to + a.start_line ≡ a.end_line + v.window.from)
Verified-ordered a route v =
    (omega (arith, v.from_is, v.to_is), ground (arith, v.passed.same_length))
