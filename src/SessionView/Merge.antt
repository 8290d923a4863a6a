-- ===== src/SessionView/Merge.antt =====
-- The exact write of served rows: what each slot of the mirror holds after a merge.
use dsh_better_edit.Prelude.{
  ℕ, zero, suc, ◌≡◌, refl, sym, ap, ◌∙◌, Bool, true, false, Option, none, some, List, [], ◌∷◌, ◌==◌,
  leb, if◌then◌else◌, get_or, take, arith, Bool-cases, Option-cases, inl, inr, All, ◌↔◌, ◌<◌,
}
use dsh_better_edit.HashAssign.{hash_space, idx_to_hash, matches_hash_re}
use dsh_better_edit.HashAssign.Codec.{idx_to_hash-hash_to_index, idx_to_hash-matches}
use dsh_better_edit.AnchorPipeline.Leases.{Slot}
use dsh_better_edit.SessionView.{
  ServedEntry, MergeOptions, truncated, clear_slots, cleared, valid_hash, write_slot, write_rows,
  trim_null, trim_slots, merge_served_rows,
}

-- The slot at a position; past the end there is none.
abbrev pub slot : List Slot → ℕ → Slot
slot slots p = get_or slots p none

slot-write_slot :
    (slots : List Slot) (p q : ℕ) (h : Slot)
    → slot (write_slot slots p h) q ≡ (if p == q then h else slot slots q)
unfolding write_slot
slot-write_slot [] zero zero h = refl
slot-write_slot [] zero (suc q) h = ground arith
slot-write_slot [] (suc p) zero h = ground arith
slot-write_slot [] (suc p) (suc q) h = ground (arith, slot-write_slot [] p q h)
slot-write_slot (s ∷ slots) zero zero h = refl
slot-write_slot (s ∷ slots) zero (suc q) h = ground arith
slot-write_slot (s ∷ slots) (suc p) zero h = ground arith
slot-write_slot (s ∷ slots) (suc p) (suc q) h = ground (arith, slot-write_slot slots p q h)

slot-trim_null : (slots : List Slot) (p : ℕ) → slot (trim_null slots) p ≡ slot (none ∷ slots) p
slot-trim_null [] zero = refl
slot-trim_null [] (suc p) = refl
slot-trim_null (s ∷ slots) p = refl

slot-trim_slots : (slots : List Slot) (p : ℕ) → slot (trim_slots slots) p ≡ slot slots p
unfolding trim_slots
slot-trim_slots [] p = refl
slot-trim_slots (none ∷ slots) zero = slot-trim_null (trim_slots slots) zero
slot-trim_slots (none ∷ slots) (suc p) =
    slot-trim_null (trim_slots slots) (suc p) ∙ slot-trim_slots slots p
slot-trim_slots (some h ∷ slots) zero = refl
slot-trim_slots (some h ∷ slots) (suc p) = slot-trim_slots slots p

-- What rows write to a position that held `s`: the last row there wins.
abbrev pub written : List ServedEntry → ℕ → Slot → Slot
written [] p s = s
written (r ∷ rows) p s = written rows p (if r.position == p then r.hash else s)

slot-write_rows :
    (slots : List Slot) (rows : List ServedEntry) (updated : List Slot) (p : ℕ)
    → write_rows slots rows ≡ some updated
    → slot updated p ≡ written rows p (slot slots p)
unfolding write_rows
slot-write_rows slots [] updated p e =
    let same : slots ≡ updated = cc in ap (λ t. slot t p) (sym same)
slot-write_rows slots (r ∷ rows) updated p e = elim (Bool-cases (valid_hash r.hash)) [
  | inl valid ↦
      (let rest : write_rows (write_slot slots r.position r.hash) rows ≡ some updated =
          ground (arith, e) in
        slot-write_rows (write_slot slots r.position r.hash) rows updated p rest
        ∙ ap (written rows p) (slot-write_slot slots r.position p r.hash))
  | inr invalid ↦ absurd (ground (arith, e))
]

abbrev pub is_past : Option ℕ → ℕ → Bool
is_past none p = false
is_past (some n) p = leb n p

slot-take :
    (n : ℕ) (slots : List Slot) (p : ℕ)
    → slot (take n slots) p ≡ (if leb n p then none else slot slots p)
slot-take zero slots p = ground arith
slot-take (suc n) [] p = ground arith
slot-take (suc n) (s ∷ slots) zero = ground arith
slot-take (suc n) (s ∷ slots) (suc p) = ground (arith, slot-take n slots p)

slot-clear_slots :
    (n : ℕ) (slots : List Slot) (p : ℕ)
    → slot (clear_slots n slots) p ≡ (if leb n p then none else slot slots p)
unfolding clear_slots
slot-clear_slots n [] p = ground arith
slot-clear_slots zero (s ∷ slots) zero = ground arith
slot-clear_slots zero (s ∷ slots) (suc p) = ground (arith, slot-clear_slots zero slots p)
slot-clear_slots (suc n) (s ∷ slots) zero = ground arith
slot-clear_slots (suc n) (s ∷ slots) (suc p) = ground (arith, slot-clear_slots n slots p)

-- What a position holds before the rows: nothing where the mirror was cut off or cleared.
abbrev pub kept : MergeOptions → List Slot → ℕ → Slot
kept o current p =
    if is_past o.clear_from p
    then none
    else if is_past o.truncate_to p
    then none
    else slot current p

slot-truncated :
    (n : Option ℕ) (slots : List Slot) (p : ℕ)
    → slot (truncated n slots) p ≡ (if is_past n p then none else slot slots p)
unfolding truncated
slot-truncated none slots p = refl
slot-truncated (some n) slots p = slot-take n slots p

slot-cleared :
    (n : Option ℕ) (slots : List Slot) (p : ℕ)
    → slot (cleared n slots) p ≡ (if is_past n p then none else slot slots p)
unfolding cleared
slot-cleared none slots p = refl
slot-cleared (some n) slots p = slot-clear_slots n slots p

-- What a merge that succeeds has written before it trims the end.
record Merged (current : List Slot) (rows : List ServedEntry) (o : MergeOptions)
    (updated : List Slot) : Type 0 where
  before : List Slot
  wrote : write_rows (cleared o.clear_from (truncated o.truncate_to current)) rows ≡ some before
  trimmed : updated ≡ trim_slots before

merge_served_rows-Merged :
    (current : List Slot) (rows : List ServedEntry) (o : MergeOptions) (updated : List Slot)
    → merge_served_rows current rows o ≡ some updated
    → Merged current rows o updated
unfolding merge_served_rows
merge_served_rows-Merged current rows o updated e =
    elim (Option-cases (write_rows (cleared o.clear_from (truncated o.truncate_to current)) rows)) [
      | inl failed ↦ absurd (ground (arith, e))
      | inr (before, wrote) ↦ record {
        before = before;
        wrote = wrote;
        trimmed =
            (let same : some (trim_slots before) ≡ some updated = ground (arith, e, wrote) in cc);
      }
    ]

-- After a merge that succeeds each position holds what the last row at that position wrote, and where
-- there is no such row, what it held before, or nothing where the mirror was cut off or cleared: an
-- anchor that is written elsewhere does not leave its old position.
pub merge_served_rows-written :
    (current : List Slot) (rows : List ServedEntry) (o : MergeOptions) (updated : List Slot) (p : ℕ)
    → merge_served_rows current rows o ≡ some updated
    → slot updated p ≡ written rows p (kept o current p)
merge_served_rows-written current rows o updated p e =
    let m : Merged current rows o updated = merge_served_rows-Merged current rows o updated e in
    ap (λ t. slot t p) m.trimmed
    ∙ slot-trim_slots m.before p
    ∙ slot-write_rows (cleared o.clear_from (truncated o.truncate_to current)) rows m.before p
        m.wrote
    ∙ ap (written rows p) (
        slot-cleared o.clear_from (truncated o.truncate_to current) p
        ∙ ap (λ t. if is_past o.clear_from p then none else t)
            (slot-truncated o.truncate_to current p))

-- No anchor, or one of the anchor space.
abbrev pub IsAnchorOrNone : Slot → Type 0
IsAnchorOrNone none = Unit
IsAnchorOrNone (some h) = (n : ℕ) × (n < hash_space) × (h ≡ idx_to_hash n)

valid_hash-IsAnchorOrNone : (s : Slot) → (valid_hash s ≡ true) ↔ IsAnchorOrNone s
valid_hash-IsAnchorOrNone none = (λ e. tt, λ t. refl)
valid_hash-IsAnchorOrNone (some h) = (
  λ e. let (n, at, small, back) = idx_to_hash-hash_to_index h e in (n, small, sym back),
  λ (n, small, e). ap matches_hash_re e ∙ idx_to_hash-matches n small,
)

write_rows-total :
    (slots : List Slot) (rows : List ServedEntry)
    → All (λ r. IsAnchorOrNone r.hash) rows
    → (updated : List Slot) × (write_rows slots rows ≡ some updated)
unfolding write_rows
write_rows-total slots [] h = (slots, refl)
write_rows-total slots (r ∷ rows) (a, h) =
    let valid : valid_hash r.hash ≡ true = (valid_hash-IsAnchorOrNone r.hash).1 a in
    let (updated, wrote) = write_rows-total (write_slot slots r.position r.hash) rows h in
    (updated, ground (arith, wrote, valid))

write_rows-valid :
    (slots : List Slot) (rows : List ServedEntry) (updated : List Slot)
    → write_rows slots rows ≡ some updated
    → All (λ r. IsAnchorOrNone r.hash) rows
unfolding write_rows
write_rows-valid slots [] updated e = tt
write_rows-valid slots (r ∷ rows) updated e = elim (Bool-cases (valid_hash r.hash)) [
  | inl valid ↦ (
    (valid_hash-IsAnchorOrNone r.hash).0 valid,
    write_rows-valid (write_slot slots r.position r.hash) rows updated (ground (arith, valid, e)),
  )
  | inr invalid ↦ absurd (ground (arith, invalid, e))
]

-- A merge succeeds exactly when each of its rows holds no anchor or one of the anchor space.
pub merge_served_rows-total :
    (current : List Slot) (rows : List ServedEntry) (o : MergeOptions)
    → ((updated : List Slot) × (merge_served_rows current rows o ≡ some updated))
      ↔ All (λ r. IsAnchorOrNone r.hash) rows
unfolding merge_served_rows
merge_served_rows-total current rows o =
    let start = cleared o.clear_from (truncated o.truncate_to current) in
    (
      λ (updated, merged).
          let m : Merged current rows o updated =
            merge_served_rows-Merged current rows o updated merged in
          write_rows-valid start rows m.before m.wrote,
      λ h.
          let (before, wrote) = write_rows-total start rows h in
          (trim_slots before, ground (arith, wrote)),
    )
