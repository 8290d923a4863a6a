-- ===== src/HashAssign/Stable/Laws.antt =====
-- What `mapStableHashes` promises: one anchor for each new line, no two alike, each the anchor of an old
-- line with the same canon or one that is new, and no removed anchor among them.
use dsh_better_edit.Prelude.{
  length-map, map, ℕ, ◌≡◌, ◌⊎◌, sym, ap, ◌∙◌, true, false, Option, some, List, [], ◌∷◌, Str,
  get_elem?, length, arith, Bool-cases, Option-cases, inl, inr, All, Distinct, has, All-get_elem?,
}
use dsh_better_edit.Text.{split_lines}
use dsh_better_edit.HashAssign.{
  Bitset, get_bit, hash_to_index, canon, matches_hash_re, mark_all, empty_bits, allocated,
}
use dsh_better_edit.HashAssign.Codec.{idx_to_hash-hash_to_index}
use dsh_better_edit.HashAssign.Fresh.{mark_all-marks, mark_all-keeps}
use dsh_better_edit.HashAssign.Stable.{
  removed_indexes, Survivor, survivors, Placement, blocked_bits, placement, fill, truthy,
  map_stable_hashes,
}
use dsh_better_edit.HashAssign.Stable.Placing.{
  PlacedDistinct, place_all-PlacedDistinct, place_all-keeps_bits, length-place_all,
}
use dsh_better_edit.HashAssign.Stable.Origin.{
  MayPlace, SlotsOk, place_all-SlotsOk, positions-CandidatesOk, IsSurvivor, survivors-IsSurvivor,
  survivors-Distinct,
}
use dsh_better_edit.HashAssign.Stable.Filling.{
  IsUnmarked, SlotsMarked, Filled, fill-Filled, length-fill, Filled-Distinct, Filled-get,
  get_elem?-truthy, truthy-PlacedDistinct, truthy-SlotsMarked,
}
use dsh_better_edit.HashAssign.Stable.Slots.{
  get-has, length-empty_slots, empty_slots-get, empty_slots-PlacedDistinct,
  empty_slots-AllNotPlaced, SlotsMarked-intro, last_index-found, removed_indexes-has,
}

module _ (old_lines old_hashes new_lines removed reserved : List Str) where
  -- The anchor of an old line with the same canon.
  pub record Kept (j : ℕ) (h : Str) : Type 0 where
    pub from : ℕ
    pub old_line : Str
    pub new_line : Str
    pub old_at : get_elem? old_lines from ≡ some old_line
    pub hash_at : get_elem? old_hashes from ≡ some h
    pub new_at : get_elem? new_lines j ≡ some new_line
    pub same_canon : canon old_line ≡ canon new_line
    pub not_removed : has h removed ≡ false

  -- An anchor that nobody has.
  pub record IsNew (h : Str) : Type 0 where
    pub not_old : has h old_hashes ≡ false
    pub not_reserved : has h reserved ≡ false
    pub not_removed : has h removed ≡ false

  pub record IsStable (hashes : List Str) : Type 0 where
    pub aligned : length hashes ≡ length new_lines
    pub distinct : Distinct hashes
    pub origin : (j : ℕ) (h : Str) → get_elem? hashes j ≡ some h → Kept j h ⊎ IsNew h

  abbrev gone : List ℕ
  gone = removed_indexes removed old_hashes

  abbrev blocked : Bitset
  blocked = blocked_bits old_hashes reserved removed

  abbrev st : Placement
  st = placement old_lines old_hashes new_lines removed reserved

  blocked-old :
      (h : Str) (i : ℕ)
      → has h old_hashes ≡ true
      → hash_to_index h ≡ some i
      → get_bit blocked i ≡ true
  unfolding blocked_bits
  blocked-old h i m e =
      mark_all-keeps (mark_all (mark_all empty_bits old_hashes) reserved) removed i (
        mark_all-keeps (mark_all empty_bits old_hashes) reserved i
          (mark_all-marks empty_bits old_hashes h i m e))

  blocked-reserved :
      (h : Str) (i : ℕ)
      → has h reserved ≡ true
      → hash_to_index h ≡ some i
      → get_bit blocked i ≡ true
  unfolding blocked_bits
  blocked-reserved h i m e =
      mark_all-keeps (mark_all (mark_all empty_bits old_hashes) reserved) removed i
        (mark_all-marks (mark_all empty_bits old_hashes) reserved h i m e)

  blocked-removed :
      (h : Str) (i : ℕ) → has h removed ≡ true → hash_to_index h ≡ some i → get_bit blocked i ≡ true
  unfolding blocked_bits
  blocked-removed h i m e =
      mark_all-marks (mark_all (mark_all empty_bits old_hashes) reserved) removed h i m e

  -- A bit that was blocked is set when the empty slots are filled.
  st-keeps : (i : ℕ) → get_bit blocked i ≡ true → get_bit st.pool.used i ≡ true
  unfolding placement
  st-keeps i b = place_all-keeps_bits _ _ _ _ (survivors old_lines old_hashes gone 0) i b

  clear-IsNew : (h : Str) → IsUnmarked st.pool.used h → IsNew h
  clear-IsNew h (i, e, clear) = record {
    not_old = none_of old_hashes (blocked-old h i);
    not_reserved = none_of reserved (blocked-reserved h i);
    not_removed = none_of removed (blocked-removed h i);
  }
    where
      none_of :
          (hs : List Str)
          → (has h hs ≡ true → hash_to_index h ≡ some i → get_bit blocked i ≡ true)
          → has h hs ≡ false
      none_of hs f = elim (Bool-cases (has h hs)) [
        | inl member ↦ absurd (ground (arith, st-keeps i (f member e), clear))
        | inr other ↦ other
      ]

  module _ (distinct : Distinct old_hashes) where
    survivor-MayPlace :
        (s : Survivor) → IsSurvivor old_lines old_hashes gone s → MayPlace new_lines Kept s
    survivor-MayPlace s is j l at same = record {
      from = s.index;
      old_line = s.line;
      new_line = l;
      old_at = is.its_line;
      hash_at = is.its_hash;
      new_at = at;
      same_canon = sym same;
      not_removed = elim (Bool-cases (has s.hash removed)) [
        | inr kept ↦ kept
        | inl gone_hash ↦ absurd (
            ground (
              arith,
              is.kept,
              removed_indexes-has s.hash removed old_hashes s.index gone_hash (
                  last_index-found s.hash old_hashes 0 s.index distinct is.its_hash
                  ∙ ap some (omega arith)),
            ))
      ];
    }

    All-MayPlace :
        (ss : List Survivor)
        → All (IsSurvivor old_lines old_hashes gone) ss
        → All (MayPlace new_lines Kept) ss
    All-MayPlace [] h = tt
    All-MayPlace (s ∷ ss) h = (survivor-MayPlace s h.0, All-MayPlace ss h.1)

    st-SlotsOk : SlotsOk new_lines Kept st.placed
    unfolding placement
    st-SlotsOk =
        place_all-SlotsOk new_lines Kept _ _ _ _ (survivors old_lines old_hashes gone 0)
          (All-MayPlace _ (survivors-IsSurvivor old_lines old_hashes gone))
          (positions-CandidatesOk new_lines) (λ j h e. absurd (empty_slots-get new_lines j h e))

    st-PlacedDistinct : PlacedDistinct st.placed
    unfolding placement
    st-PlacedDistinct =
        place_all-PlacedDistinct _ _ _ _ (survivors old_lines old_hashes gone 0)
          (survivors-Distinct old_lines old_hashes gone 0 distinct)
          (empty_slots-AllNotPlaced new_lines _) (empty_slots-PlacedDistinct new_lines)

    module _ (well : All (λ h. matches_hash_re h ≡ true) old_hashes) where
      st-SlotsMarked : SlotsMarked st.pool.used st.placed
      st-SlotsMarked = SlotsMarked-intro st.pool.used st.placed (λ j h e.
          let k : Kept j h = st-SlotsOk j h e in
          let (i, found, _, _) =
            idx_to_hash-hash_to_index h
              (All-get_elem? (λ x. matches_hash_re x ≡ true) old_hashes k.from h well k.hash_at) in
          (i, found, st-keeps i (blocked-old h i (get-has old_hashes k.from h k.hash_at) found)))

length-st :
    (old_lines old_hashes new_lines removed reserved : List Str)
    → length (placement old_lines old_hashes new_lines removed reserved).placed ≡ length new_lines
unfolding placement
length-st old_lines old_hashes new_lines removed reserved =
    length-place_all _ _ _ _ (survivors old_lines old_hashes _ 0) ∙ length-empty_slots new_lines

-- Where the old anchors are distinct and have the form of an anchor and `mapStableHashes` succeeds, there
-- is one anchor for each new line, no two are alike, and each is either the anchor of an old line with
-- the same canonical text, not removed, or one that is neither old, nor reserved, nor removed.
pub map_stable_hashes-IsStable :
    (xxh32 : Str → ℕ) (old_content : Str) (old_hashes : List Str) (new_content : Str)
    (removed reserved : List Str) (rc sc : Option ℕ) (hashes : List Str)
    → Distinct old_hashes
    → All (λ h. matches_hash_re h ≡ true) old_hashes
    → map_stable_hashes xxh32 old_content old_hashes new_content removed reserved rc sc
      ≡ allocated hashes
    → IsStable
        (split_lines old_content)
        old_hashes
        (split_lines new_content)
        removed
        reserved
        hashes
unfolding map_stable_hashes
map_stable_hashes-IsStable xxh32 old_content old_hashes new_content removed reserved rc sc hashes d
      well e =
    let old_lines : List Str = split_lines old_content in
    let new_lines : List Str = split_lines new_content in
    let st : Placement = placement old_lines old_hashes new_lines removed reserved in
    elim (Option-cases (fill xxh32 st.pool (map truthy st.placed) new_lines)) [
      | inl full ↦ absurd (ground arith)
      | inr (found, filled) ↦
          let same : found ≡ hashes = ground arith in
          let f : Filled st.pool.used (map truthy st.placed) hashes =
            fill-Filled xxh32 st.pool (map truthy st.placed) new_lines hashes
              (filled ∙ ap some same) in
          record {
            aligned =
                length-fill xxh32 st.pool (map truthy st.placed) new_lines hashes
                  (filled ∙ ap some same)
                  (length-map st.placed truthy
                    ∙ length-st old_lines old_hashes new_lines removed reserved);
            distinct =
                Filled-Distinct
                  (truthy-PlacedDistinct st.placed
                    (st-PlacedDistinct old_lines old_hashes new_lines removed reserved d))
                  (truthy-SlotsMarked st.pool.used st.placed
                    (st-SlotsMarked old_lines old_hashes new_lines removed reserved d well))
                  f;
            origin = λ j h at. elim (Filled-get j h f at) [
              | inl placed ↦ inl (
                  st-SlotsOk old_lines old_hashes new_lines removed reserved d j h
                    (get_elem?-truthy st.placed j h placed))
              | inr clear ↦
                  inr (clear-IsNew old_lines old_hashes new_lines removed reserved h clear)
            ];
          }
    ]
