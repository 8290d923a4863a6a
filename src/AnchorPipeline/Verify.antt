-- ===== src/AnchorPipeline/Verify.antt =====
-- The verification of a served span: `verifyServedRange` (src/hashline/anchor-pipeline.ts), and
-- `servedPositionsOf` (src/session-view.ts).
pub mod Loop
pub mod Passed
pub mod Mirror
pub mod Leased
use dsh_better_edit.Prelude.{
  ℕ, zero, suc, ◌+◌, ◌-◌, Bool, true, false, ◌&&◌, ◌||◌, not, Option, none, some, List, [], ◌∷◌,
  ◌++◌, Str, ◌==◌, leb, ltb, if◌then◌else◌, length, str_eq, get_or, get_elem?, min, max, has,
  starts_with,
}
use dsh_better_edit.HashAssign.{canon, hash_sep}
use dsh_better_edit.AnchorPipeline.{
  ServedRow, Cause, no_cause, staleness, never_served, retirement, boundary, interior, Rejection,
  stale_range, unserved_range, unknown_anchor, foreign_anchor, unverified_range, target_lost,
  Result, ok, err, ◌>>=◌, ◌>>◌, line_at,
}
use dsh_better_edit.AnchorPipeline.Leases.{
  LeaseSpanSource, Route, Slot, build_range_echo, checks_position, for_each,
  intercept_lease_boundaries, leased, mirror, owes_interior_scan, served_evidence_route,
  unique_from, verify_rebased_span,
}

-- `servedPositionsOf`, from position `i`.
abbrev pub slot_is : Slot → Str → Bool
slot_is none hash = false
slot_is (some h) hash = str_eq h hash

unfoldable pub served_positions_of : List Slot → Str → ℕ → List ℕ
served_positions_of [] hash i = []
served_positions_of (slot ∷ served) hash i =
    if slot_is slot hash
    then i ∷ served_positions_of served hash (suc i)
    else served_positions_of served hash (suc i)

-- `fileHashes.indexOf(hash)`.
unfoldable pub index_of_hash : Str → List Str → ℕ → Option ℕ
index_of_hash hash [] i = none
index_of_hash hash (h ∷ hs) i = if str_eq h hash then some i else index_of_hash hash hs (suc i)

-- The arguments of `verifyServedRange`.
pub record SpanArgs : Type 0 where
  pub served : List Slot
  pub start_hash : Str
  pub end_hash : Str
  pub start_line : ℕ
  pub end_line : ℕ
  pub file_hashes : List Str
  pub file_lines : List Str
  pub served_canons : Option (List Slot)
  pub retired : List Str
  pub lease_source : Option LeaseSpanSource

-- `servedCanons?.[i] ?? undefined`: a canon that was recorded.
abbrev pub recorded_canon : Option (List Slot) → ℕ → Slot
recorded_canon none i = none
recorded_canon (some canons) i = get_or canons i none

-- `expected !== actual` for a canon that was recorded.
abbrev pub canon_differs : Slot → Str → Bool
canon_differs none line = false
canon_differs (some expected) line = not (str_eq expected (canon line))

-- `served.indexOf(hash)`, the first of its positions, and the canon recorded there.
abbrev pub canon_at_first : Option (List Slot) → List ℕ → Slot
canon_at_first canons [] = none
canon_at_first canons (i ∷ is) = recorded_canon canons i

unfoldable pub check_retired_boundary : SpanArgs → List ServedRow → Result (Unit {0})
check_retired_boundary a rows =
    if has a.start_hash a.retired || has a.end_hash a.retired
    then (let retired_hash = if has a.start_hash a.retired then a.start_hash else a.end_hash in
        elim (index_of_hash retired_hash a.file_hashes 0) [
          | none ↦ ok tt
          | some pos ↦
              if canon_differs
                (canon_at_first a.served_canons (served_positions_of a.served retired_hash 0))
                (line_at a.file_lines pos)
              then err (stale_range no_cause (pos + 1) rows)
              else ok tt
        ])
    else ok tt

abbrev pub intercept : Route → SpanArgs → Result (Unit {0})
intercept mirror a = ok tt
intercept (leased source) a =
    intercept_lease_boundaries a.start_hash a.end_hash a.file_hashes source

pub record Window : Type 0 where
  pub from : ℕ
  pub to : ℕ

abbrev pub missing_of : Str → List ℕ → List Str
missing_of hash [] = hash ∷ []
missing_of hash (p ∷ ps) = []

abbrev pub refuse_positions : List Str → List ServedRow → Result Window
refuse_positions [] rows = err (unserved_range boundary none rows)
refuse_positions (m ∷ ms) rows = err (unknown_anchor (unique_from [] (m ∷ ms)))

-- Each boundary anchor must have exactly one served position.
abbrev pub place_window : SpanArgs → List ℕ → List ℕ → List ServedRow → Result Window
place_window a (p ∷ []) (q ∷ []) rows = ok (record { from = min p q; to = max p q })
place_window a ps qs rows =
    refuse_positions (missing_of a.start_hash ps ++ missing_of a.end_hash qs) rows

abbrev pub check_served : Option Slot → ℕ → List ServedRow → Result (Unit {0})
check_served (some none) line rows = err (unserved_range interior (some line) rows)
check_served slot line rows = ok tt

abbrev pub scan_interior : Route → SpanArgs → Window → List ServedRow → Result (Unit {0})
scan_interior route a w rows =
    if owes_interior_scan route
    then for_each (w.to + 1 - w.from) w.from (λ i. check_served (get_elem? a.served i) (i + 1) rows)
    else ok tt

abbrev pub check_identity : Route → SpanArgs → Window → List ServedRow → Result (Unit {0})
check_identity (leased source) a w rows =
    verify_rebased_span a.served w.from w.to a.start_line a.end_line source rows
check_identity mirror a w rows =
    if w.from + 1 == a.start_line then ok tt else err (stale_range no_cause a.start_line rows)

abbrev pub check_canon : SpanArgs → Window → List ServedRow → ℕ → Result (Unit {0})
check_canon a w rows k =
    if canon_differs (recorded_canon a.served_canons (w.from + k))
      (line_at a.file_lines (a.start_line - 1 + k))
    then err (stale_range no_cause (a.start_line + k) rows)
    else ok tt

abbrev pub check_retired : SpanArgs → Window → List ServedRow → ℕ → Result (Unit {0})
check_retired a w rows k = elim (get_elem? a.file_hashes (a.start_line - 1 + k)) [
  | none ↦ ok tt
  | some h ↦ if has h a.retired then check_canon a w rows k else ok tt
]

-- `served[i] === fileHashes[j]`.
abbrev pub same_anchor : Option Slot → Option Str → Bool
same_anchor none none = true
same_anchor (some (some h)) (some g) = str_eq h g
same_anchor slot hash = false

abbrev pub check_anchor : Route → SpanArgs → Window → List ServedRow → ℕ → Result (Unit {0})
check_anchor route a w rows k =
    if checks_position route (get_elem? a.served (w.from + k))
    then (if same_anchor (get_elem? a.served (w.from + k))
          (get_elem? a.file_hashes (a.start_line - 1 + k))
        then ok tt
        else err (stale_range no_cause (a.start_line + k) rows))
    else ok tt

abbrev pub check_length : SpanArgs → Window → List ServedRow → Result (Unit {0})
check_length a w rows =
    if w.to + a.start_line == a.end_line + w.from
    then ok tt
    else err (stale_range no_cause a.start_line rows)

-- The steps of `verifyServedRange` on a route, once the boundaries are placed.
unfoldable pub verify_window : Route → SpanArgs → Window → List ServedRow → Result (Unit {0})
verify_window route a w rows = do
  scan_interior route a w rows
  check_length a w rows
  check_identity route a w rows
  for_each (w.to + 1 - w.from) 0 (check_canon a w rows)
  for_each (w.to + 1 - w.from) 0 (check_retired a w rows)
  for_each (w.to + 1 - w.from) 0 (check_anchor route a w rows)

unfoldable pub verify_served_range : SpanArgs → Result (Unit {0})
verify_served_range a = do
  let rows = build_range_echo a.start_line a.end_line a.file_hashes
  let route = served_evidence_route a.lease_source
  check_retired_boundary a rows
  intercept route a
  w ←
      place_window a (served_positions_of a.served a.start_hash 0)
        (served_positions_of a.served a.end_hash 0) rows
  verify_window route a w rows
