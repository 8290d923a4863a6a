-- ===== src/AnchorPipeline/Verify/Leased.antt =====
-- A span that passes verification with leases: both boundary leases are live where the edit goes, and
-- every served row of the span still has its identity there.
use dsh_better_edit.Prelude.{
  ◌⊎◌, ℕ, ◌+◌, ◌-◌, ◌<◌, ◌≤◌, ◌≡◌, ◌≢◌, refl, sym, ap, ◌∙◌, true, Option, none, some, List, [], ◌∷◌,
  Str, ◌==◌, get_elem?, arith, Bool-cases, Option-cases, inl, inr, get_elem?-total,
}
use dsh_better_edit.HashAssign.{canon}
use dsh_better_edit.AnchorPipeline.{ServedRow, ok, line_at}
use dsh_better_edit.AnchorPipeline.Leases.{
  Slot, Lease, LeaseSpanSource, leased, for_each, check_slot, check_lease, verify_rebased_span,
  served_evidence_route, intercept_lease_boundaries, judge_boundaries, line_identity_decision,
  throw_unknown_or_foreign, foreign_or_unknown, reject_window, reject_stale, unique_from, sort_strs,
  all_homes,
}
use dsh_better_edit.AnchorPipeline.Verify.{
  SpanArgs, recorded_canon, check_anchor, same_anchor, verify_served_range,
}
use dsh_better_edit.AnchorPipeline.Verify.Loop.{for_each-ok_zero, same_anchor_sound}
use dsh_better_edit.AnchorPipeline.Verify.Passed.{
  Verified, verify_served_range-Verified, Verified-inside, Verified-ordered,
}
use dsh_better_edit.AnchorPipeline.Verify.Mirror.{canon-kept}

-- The anchor's lease is live, and its line is now `line`.
pub record IsLive (source : LeaseSpanSource) (anchor : Str) (line : ℕ) : Type 0 where
  pub lease : Lease
  pub held : source.lease_for anchor ≡ some lease
  pub unretired : lease.retired_at ≡ none
  pub rebased : source.rebased_line_of lease.line_id ≡ some line

check_lease-IsLive :
    (source : LeaseSpanSource) (anchor : Str) (line : ℕ) (rows : List ServedRow)
    → check_lease source (source.lease_for anchor) line rows ≡ ok tt
    → IsLive source anchor line
check_lease-IsLive source anchor line rows e = elim (Option-cases (source.lease_for anchor)) [
  | inl missing ↦ absurd (ground arith)
  | inr (lease, held) ↦ elim (Option-cases lease.retired_at) [
    | inr (at, gone) ↦ absurd (ground arith)
    | inl live ↦ elim (Option-cases (source.rebased_line_of lease.line_id)) [
      | inl lost ↦ absurd (ground arith)
      | inr (l, found) ↦ record {
        lease = lease;
        held = held;
        unretired = live;
        rebased = found ∙ ap some (ground arith);
      }
    ]
  ]
]

unknown_or_foreign-ne-ok :
    (anchors : List Str) (source : LeaseSpanSource)
    → throw_unknown_or_foreign anchors source ≢ ok tt
unfolding throw_unknown_or_foreign
unknown_or_foreign-ne-ok anchors source e =
    refuses (unique_from [] anchors) (sort_strs (unique_from [] (all_homes source _))) e
  where
    refuses : (refused homes : List Str) → foreign_or_unknown refused homes ≢ ok tt
    refuses refused [] h = cc
    refuses refused (home ∷ homes) h = cc

reject_stale-ne-ok :
    (stale_line line : ℕ) (survivor from to : Lease) (file_hashes : List Str)
    → reject_stale stale_line line survivor from to file_hashes ≢ ok tt
unfolding reject_window
reject_stale-ne-ok stale_line line survivor from to file_hashes e = ground arith

-- A boundary is held by a live lease, wherever its line is now.
pub record IsHeld (source : LeaseSpanSource) (anchor : Str) : Type 0 where
  pub line : ℕ
  pub live : IsLive source anchor line

decision-IsHeld :
    (source : LeaseSpanSource) (anchor : Str) (lease : Lease) (l : ℕ)
    → source.lease_for anchor ≡ some lease
    → line_identity_decision lease source ≡ some l
    → IsHeld source anchor
unfolding line_identity_decision
decision-IsHeld source anchor lease l held e = elim (Option-cases lease.retired_at) [
  | inr (at, gone) ↦ absurd (ground arith)
  | inl live ↦ record {
    line = l;
    live = record { lease = lease; held = held; unretired = live; rebased = ground arith };
  }
]

judge-both :
    (from to : Lease) (l m : Option ℕ) (file_hashes : List Str)
    → judge_boundaries from to l m file_hashes ≡ ok tt
    → ((i : ℕ) × (l ≡ some i)) × ((j : ℕ) × (m ≡ some j))
judge-both from to (some l) (some m) file_hashes e = ((l, refl), (m, refl))
judge-both from to none (some m) file_hashes e =
    absurd (reject_stale-ne-ok from.served_line_number m to from to file_hashes e)
judge-both from to (some l) none file_hashes e =
    absurd (reject_stale-ne-ok to.served_line_number l from from to file_hashes e)
judge-both from to none none file_hashes e = cc

pub intercept-IsHeld :
    (s t : Str) (file_hashes : List Str) (source : LeaseSpanSource)
    → intercept_lease_boundaries s t file_hashes source ≡ ok tt
    → IsHeld source s × IsHeld source t
unfolding intercept_lease_boundaries
intercept-IsHeld s t file_hashes source e = elim (Option-cases (source.lease_for s)) [
  | inl no_from ↦ elim (Option-cases (source.lease_for t)) [
    | inl no_to ↦
        absurd (unknown_or_foreign-ne-ok (s ∷ t ∷ []) source (ground (arith, e, no_from, no_to)))
    | inr (to, held) ↦
        absurd (unknown_or_foreign-ne-ok (s ∷ []) source (ground (arith, e, no_from, held)))
  ]
  | inr (from, held_from) ↦ elim (Option-cases (source.lease_for t)) [
    | inl no_to ↦
        absurd (unknown_or_foreign-ne-ok (t ∷ []) source (ground (arith, e, held_from, no_to)))
    | inr (to, held_to) ↦
        let judged : judge_boundaries from to (line_identity_decision from source)
              (line_identity_decision to source) file_hashes
            ≡ ok tt =
          ground (arith, e, held_from, held_to) in
        let both =
          judge-both from to (line_identity_decision from source) (line_identity_decision to source)
            file_hashes judged in
        (
          decision-IsHeld source s from both.0.0 held_from both.0.1,
          decision-IsHeld source t to both.1.0 held_to both.1.1,
        )
  ]
]

-- A served row whose identity stands at line `line` of the file, which still has its anchor.
pub record IsTrackedRow (a : SpanArgs) (source : LeaseSpanSource) (slot line : ℕ) : Type 0 where
  pub anchor : Str
  pub served_as : get_elem? a.served slot ≡ some (some anchor)
  pub live : IsLive source anchor line
  pub found : get_elem? a.file_hashes (line - 1) ≡ some anchor

-- What a verification with leases has established, with the served window starting at `from`.
pub record IsTracked (a : SpanArgs) (source : LeaseSpanSource) : Type 0 where
  pub from : ℕ
  pub ordered : a.start_line ≤ a.end_line
  pub start_held : IsHeld source a.start_hash
  pub end_held : IsHeld source a.end_hash
  -- Only a row strictly inside may never have been served.
  pub lines :
      (k : ℕ)
      → a.start_line + k ≤ a.end_line
      → IsTrackedRow a source (from + k) (a.start_line + k)
        ⊎ ((get_elem? a.served (from + k) ≡ some none) × (0 < k) × (a.start_line + k < a.end_line))
  pub canons :
      (k : ℕ) (c : Str)
      → a.start_line + k ≤ a.end_line
      → recorded_canon a.served_canons (from + k) ≡ some c
      → canon (line_at a.file_lines (a.start_line - 1 + k)) ≡ c

module _ (a : SpanArgs) (source : LeaseSpanSource) (v : Verified a (leased source)) where
  abbrev size : ℕ
  size = v.window.to + 1 - v.window.from

  rebased_loop :
      for_each size 0 (λ k.
        check_slot source k size (get_elem? a.served (v.window.from + k)) (a.start_line + k) v.rows)
      ≡ ok tt
  unfolding verify_rebased_span
  rebased_loop = elim (Bool-cases (v.window.to + a.start_line == a.end_line + v.window.from)) [
    | inl same ↦ ground (arith, v.passed.identified)
    | inr other ↦ absurd (ground (arith, v.passed.identified))
  ]

  by_slot :
      (k : ℕ) (slot : Slot)
      → 0 < a.start_line
      → (v.window.from ≤ v.window.to) × (v.window.to + a.start_line ≡ a.end_line + v.window.from)
      → a.start_line + k ≤ a.end_line
      → get_elem? a.served (v.window.from + k) ≡ some slot
      → check_slot source k size (some slot) (a.start_line + k) v.rows ≡ ok tt
      → check_anchor (leased source) a v.window v.rows k ≡ ok tt
      → IsTrackedRow a source (v.window.from + k) (a.start_line + k)
        ⊎ ((get_elem? a.served (v.window.from + k) ≡ some none)
            × (0 < k)
            × (a.start_line + k < a.end_line))
  by_slot k none s o b there round last = inr (there, ground arith, ground arith)
  by_slot k (some h) s o b there round last =
      let same : same_anchor (some (some h)) (get_elem? a.file_hashes (a.start_line - 1 + k))
          ≡ true =
        ground (arith, last, there) in
      let (g, filled, found) =
        same_anchor_sound (some h) (get_elem? a.file_hashes (a.start_line - 1 + k)) same in
      let at : a.start_line + k - 1 ≡ a.start_line - 1 + k = omega arith in
      inl (record {
        anchor = h;
        served_as = there;
        live = check_lease-IsLive source h (a.start_line + k) v.rows round;
        found = ap (get_elem? a.file_hashes) at ∙ found ∙ sym filled;
      })

  tracked_line :
      (k : ℕ)
      → 0 < a.start_line
      → a.start_line + k ≤ a.end_line
      → IsTrackedRow a source (v.window.from + k) (a.start_line + k)
        ⊎ ((get_elem? a.served (v.window.from + k) ≡ some none)
            × (0 < k)
            × (a.start_line + k < a.end_line))
  tracked_line k s b =
      let o : (v.window.from ≤ v.window.to)
          × (v.window.to + a.start_line ≡ a.end_line + v.window.from) =
        Verified-ordered a (leased source) v in
      let round : check_slot source k size (get_elem? a.served (v.window.from + k))
            (a.start_line + k) v.rows
          ≡ ok tt =
        for_each-ok_zero size
          (λ j.
            check_slot source j size (get_elem? a.served (v.window.from + j)) (a.start_line + j)
              v.rows)
          k rebased_loop (omega arith) in
      let last : check_anchor (leased source) a v.window v.rows k ≡ ok tt =
        for_each-ok_zero size (check_anchor (leased source) a v.window v.rows) k v.passed.anchors
          (omega arith) in
      let (slot, there) =
        get_elem?-total a.served (v.window.from + k)
          (omega (arith, Verified-inside a (leased source) v)) in
      by_slot k slot s o b there
        (ap (λ t. check_slot source k size t (a.start_line + k) v.rows) (sym there) ∙ round) last

-- With leases and a span that starts at a line, a verification succeeds only when the bounds are held by
-- live leases and each line of the span either carries the anchor of its served row, whose identity is
-- live and now stands at that line, or stands strictly inside the span where nothing was served.
pub verify_served_range-IsTracked :
    (a : SpanArgs) (source : LeaseSpanSource)
    → a.lease_source ≡ some source
    → 0 < a.start_line
    → verify_served_range a ≡ ok tt
    → IsTracked a source
verify_served_range-IsTracked a source lease s e =
    let v : Verified a (leased source) =
      rw (ap served_evidence_route lease) at (verify_served_range-Verified a e) in
    let o : (v.window.from ≤ v.window.to)
        × (v.window.to + a.start_line ≡ a.end_line + v.window.from) =
      Verified-ordered a (leased source) v in
    let held : IsHeld source a.start_hash × IsHeld source a.end_hash =
      intercept-IsHeld a.start_hash a.end_hash a.file_hashes source v.boundaries in
    record {
      from = v.window.from;
      ordered = omega arith;
      start_held = held.0;
      end_held = held.1;
      lines = λ k b. tracked_line a source v k s b;
      canons = λ k c b r. canon-kept a (leased source) v k c (omega arith) r;
    }
