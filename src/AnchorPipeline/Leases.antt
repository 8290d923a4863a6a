-- ===== src/AnchorPipeline/Leases.antt =====
-- What the verification of a span rests on (src/hashline/anchor-pipeline.ts): the echo of served anchors
-- in a replacement (`findEditHashEcho`), the rows shown on a refusal (`buildRangeEcho`), and the leases:
-- `interceptLeaseBoundaries` and `verifyRebasedSpan`. A slot of the served mirror is `null` or an anchor.
use dsh_better_edit.Prelude.{
  ℕ, zero, suc, ◌+◌, ◌-◌, Bool, true, false, ◌&&◌, not, Option, none, some, List, [], ◌∷◌, ◌++◌,
  Str, ◌==◌, leb, ltb, if◌then◌else◌, length, get_or, get_elem?, min, max, has, starts_with,
}
use dsh_better_edit.HashAssign.{hash_sep}
use dsh_better_edit.AnchorPipeline.{
  ServedRow, staleness, never_served, retirement, stale_range, unknown_anchor, foreign_anchor,
  unverified_range, target_lost, Result, ok, err, ◌>>◌,
}

abbrev pub Slot : Type 0
Slot = Option Str

abbrev pub served_echo_cap : ℕ
served_echo_cap = 150

-- `served[pos] !== null && line.startsWith(served[pos] + HASH_SEP)`, in range.
abbrev pub echoes : Str → Option Slot → Bool
echoes line (some (some hash)) = starts_with line (hash ++ hash_sep ∷ [])
echoes line slot = false

pub record Echo : Type 0 where
  pub k : ℕ
  pub hash : Str

abbrev pub slot_hash : Option Slot → Str
slot_hash (some (some hash)) = hash
slot_hash slot = []

-- The loop of `findEditHashEcho`; line `k` of the replacement against position `pos`.
unfoldable pub echo_loop : List Str → List Slot → ℕ → ℕ → Option Echo
echo_loop [] served pos k = none
echo_loop (line ∷ lines) served pos k =
    let rest = echo_loop lines served (suc pos) (suc k) in
    if echoes line (get_elem? served pos)
    then some (record { k = suc k; hash = slot_hash (get_elem? served pos) })
    else rest

unfoldable pub find_edit_hash_echo : List Str → List Slot → ℕ → Option Echo
find_edit_hash_echo lines served start_line = echo_loop lines served (start_line - 1) 0

unfoldable pub echo_rows : ℕ → ℕ → List Str → List ServedRow
echo_rows zero ln file_hashes = []
echo_rows (suc count) ln file_hashes =
    record { position = ln - 1; hash = get_or file_hashes (ln - 1) [] }
    ∷ echo_rows count (suc ln) file_hashes

unfoldable pub build_range_echo : ℕ → ℕ → List Str → List ServedRow
build_range_echo start_line end_line file_hashes =
    echo_rows (min (end_line + 1 - start_line) served_echo_cap) start_line file_hashes

-- LeaseIdentityView.
pub record Lease : Type 0 where
  pub line_id : ℕ
  pub served_line_number : ℕ
  pub served_snapshot_hash : Str
  pub retired_at : Option ℕ

-- LeaseSpanSource, the seam to the store.
pub record LeaseSpanSource : Type 0 where
  pub lease_for : Str → Option Lease
  pub rebased_line_of : ℕ → Option ℕ
  pub anchor_homes : Str → List Str

pub data Route : Type 0 where
  leased : LeaseSpanSource → Route
  mirror : Route

abbrev pub served_evidence_route : Option LeaseSpanSource → Route
served_evidence_route none = mirror
served_evidence_route (some source) = leased source

abbrev pub owes_interior_scan : Route → Bool
owes_interior_scan mirror = true
owes_interior_scan (leased source) = false

abbrev pub accepts_interior_hole : Route → ℕ → ℕ → Bool
accepts_interior_hole mirror k served_len = false
accepts_interior_hole (leased source) k served_len = not (k == 0) && not (suc k == served_len)

abbrev pub checks_position : Route → Option Slot → Bool
checks_position mirror slot = true
checks_position (leased source) (some none) = false
checks_position (leased source) slot = true

-- `[...new Set(xs)]`: the first of equal members stays.
unfoldable pub unique_from : List Str → List Str → List Str
unique_from seen [] = []
unique_from seen (x ∷ xs) =
    if has x seen then unique_from seen xs else x ∷ unique_from (x ∷ seen) xs

-- `a <= b` in the order of code units.
unfoldable pub str_leb : Str → Str → Bool
str_leb [] b = true
str_leb (x ∷ a) [] = false
str_leb (x ∷ a) (y ∷ b) = if ltb x y then true else (x == y) && str_leb a b

unfoldable pub sort_insert : Str → List Str → List Str
sort_insert x [] = x ∷ []
sort_insert x (y ∷ ys) = if str_leb x y then x ∷ y ∷ ys else y ∷ sort_insert x ys

unfoldable pub sort_strs : List Str → List Str
sort_strs [] = []
sort_strs (x ∷ xs) = sort_insert x (sort_strs xs)

unfoldable pub all_homes : LeaseSpanSource → List Str → List Str
all_homes source [] = []
all_homes source (a ∷ as') = source.anchor_homes a ++ all_homes source as'

abbrev pub foreign_or_unknown : List Str → List Str → Result (Unit {0})
foreign_or_unknown refused [] = err (unknown_anchor refused)
foreign_or_unknown refused (home ∷ homes) = err (foreign_anchor refused (home ∷ homes))

unfoldable pub throw_unknown_or_foreign : List Str → LeaseSpanSource → Result (Unit {0})
throw_unknown_or_foreign anchors source =
    let refused = unique_from [] anchors in
    foreign_or_unknown refused (sort_strs (unique_from [] (all_homes source refused)))

-- `lineIdentityDecision`; `none` is `stale`.
unfoldable pub line_identity_decision : Lease → LeaseSpanSource → Option ℕ
line_identity_decision lease source = elim lease.retired_at [
  | some at ↦ none
  | none ↦ source.rebased_line_of lease.line_id
]

-- The refusal where exactly one bound is stale and the survivor is live and unshifted.
unfoldable pub reject_window : ℕ → Lease → Lease → List Str → Result (Unit {0})
reject_window stale_line from_lease to_lease file_hashes =
    let raw_start = min from_lease.served_line_number to_lease.served_line_number in
    let raw_end = max from_lease.served_line_number to_lease.served_line_number in
    let len = length file_hashes in
    let start_line = max 1 raw_start in
    let end_line = min len raw_end in
    if ltb 0 len && leb start_line end_line && leb 1 raw_end && leb raw_start len
    then err (unverified_range stale_line (build_range_echo start_line end_line file_hashes))
    else err (target_lost stale_line)

-- The survivor's line is where it was served.
abbrev pub reject_stale : ℕ → ℕ → Lease → Lease → Lease → List Str → Result (Unit {0})
reject_stale stale_line line survivor from_lease to_lease file_hashes =
    if line == survivor.served_line_number
    then reject_window stale_line from_lease to_lease file_hashes
    else err (target_lost stale_line)

abbrev pub judge_boundaries : Lease → Lease → Option ℕ → Option ℕ → List Str → Result (Unit {0})
judge_boundaries from_lease to_lease (some l) (some m) file_hashes = ok tt
judge_boundaries from_lease to_lease none (some m) file_hashes =
    reject_stale from_lease.served_line_number m to_lease from_lease to_lease file_hashes
judge_boundaries from_lease to_lease (some l) none file_hashes =
    reject_stale to_lease.served_line_number l from_lease from_lease to_lease file_hashes
judge_boundaries from_lease to_lease none none file_hashes =
    err (target_lost from_lease.served_line_number)

abbrev pub intercept_with :
    Str → Str → List Str → LeaseSpanSource → Option Lease → Option Lease → Result (Unit {0})
intercept_with s e file_hashes source none none = throw_unknown_or_foreign (s ∷ e ∷ []) source
intercept_with s e file_hashes source none (some to) = throw_unknown_or_foreign (s ∷ []) source
intercept_with s e file_hashes source (some from) none = throw_unknown_or_foreign (e ∷ []) source
intercept_with s e file_hashes source (some from) (some to) =
    judge_boundaries from to (line_identity_decision from source) (line_identity_decision to source)
      file_hashes

unfoldable pub intercept_lease_boundaries :
    Str → Str → List Str → LeaseSpanSource → Result (Unit {0})
intercept_lease_boundaries start_hash end_hash file_hashes source =
    intercept_with start_hash end_hash file_hashes source (source.lease_for start_hash)
      (source.lease_for end_hash)

-- `for (k = from; k < from + count; k++) body(k)`, until a round throws.
unfoldable pub for_each : ℕ → ℕ → (ℕ → Result (Unit {0})) → Result (Unit {0})
for_each zero k body = ok tt
for_each (suc count) k body = body k >> for_each count (suc k) body

abbrev pub check_rebased : Option ℕ → ℕ → List ServedRow → Result (Unit {0})
check_rebased none line rows = err (stale_range staleness line rows)
check_rebased (some l) line rows =
    if l == line then ok tt else err (stale_range staleness line rows)

abbrev pub check_lease : LeaseSpanSource → Option Lease → ℕ → List ServedRow → Result (Unit {0})
check_lease source none line rows = err (stale_range never_served line rows)
check_lease source (some lease) line rows = elim lease.retired_at [
  | some at ↦ err (stale_range retirement line rows)
  | none ↦ check_rebased (source.rebased_line_of lease.line_id) line rows
]

-- One round of `verifyRebasedSpan`.
abbrev pub check_slot :
    LeaseSpanSource → ℕ → ℕ → Option Slot → ℕ → List ServedRow → Result (Unit {0})
check_slot source k served_len none line rows = err (stale_range staleness line rows)
check_slot source k served_len (some none) line rows =
    if accepts_interior_hole (leased source) k served_len
    then ok tt
    else err (stale_range never_served line rows)
check_slot source k served_len (some (some anchor)) line rows =
    check_lease source (source.lease_for anchor) line rows

-- The spans [from, to] (0-based) and [start_line, end_line] (1-based).
unfoldable pub verify_rebased_span :
    List Slot → ℕ → ℕ → ℕ → ℕ → LeaseSpanSource → List ServedRow → Result (Unit {0})
verify_rebased_span served from to start_line end_line source rows =
    if to + start_line == end_line + from
    then for_each (to + 1 - from) 0 (λ k.
      check_slot source k (to + 1 - from) (get_elem? served (from + k)) (start_line + k) rows)
    else err (stale_range staleness start_line rows)
