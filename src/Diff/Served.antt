-- ===== src/Diff/Served.antt =====
-- The loop of the diff over its parts serves the rows that it shows.
use dsh_better_edit.Prelude.{
  ℕ, zero, suc, ◌+◌, ◌-◌, ◌*◌, ◌<◌, ◌≤◌, ◌≡◌, refl, ap, ◌∙◌, Bool, true, false, not, ◌&&◌, ◌||◌,
  Option, none, some, List, [], ◌∷◌, ◌++◌, Str, leb, Bool-cases, inl, inr, length, length-append,
  get_or, take, drop, map, All, arith,
}
use dsh_better_edit.Diff.{
  Part, added_row, lines_deleted, show_lines, display_lines, diff_removed_cap, diff_removed_edge,
  removed_rows, format_removed_lines, is_change, next_is_change, gap_of, diff_from, gen_diff,
}
use dsh_better_edit.Diff.Aligned.{
  Shown, shown, shown-append, served_line, HasAnchor, IsAligned, StandAt, append-IsAligned,
  show_lines-IsAligned, shows_added, no_rows-IsAligned, gap_of-IsAligned, gap_of-moved,
}

-- The lines of the new file that the parts hold.
unfoldable pub new_lines : List Part → List Str
new_lines [] = []
new_lines (part ∷ parts) = elim (not part.added && part.removed) [
  | true ↦ new_lines parts
  | false ↦ display_lines part ++ new_lines parts
]

-- No two unchanged parts follow each other.
abbrev pub next_is_change_or_end : List Part → Bool
next_is_change_or_end [] = true
next_is_change_or_end (part ∷ parts) = is_change part

unfoldable pub is_separated : List Part → Bool
is_separated [] = true
is_separated (part ∷ parts) = (is_change part || next_is_change_or_end parts) && is_separated parts

removed-shown :
    (old : Option (List Str)) (n : ℕ) (part : List Str) → shown (removed_rows old n part) ≡ []
unfolding shown removed_rows
removed-shown old n [] = refl
removed-shown none n (l ∷ part) = removed-shown none (suc n) part
removed-shown (some hashes) n (l ∷ part) = removed-shown (some hashes) (suc n) part

format_removed_lines-shown :
    (part : List Str) (old : Option (List Str)) (n : ℕ)
    → shown (format_removed_lines part old n) ≡ []
unfolding format_removed_lines
format_removed_lines-shown part old n = elim (Bool-cases (leb (length part) diff_removed_cap)) [
  | inl few ↦ rw few (removed-shown old n part)
  | inr many ↦ rw many (
      shown-append (removed_rows old n (take diff_removed_edge part)) (
        lines_deleted (length part - diff_removed_edge * 2)
        ∷ removed_rows old (n + diff_removed_edge + (length part - diff_removed_edge * 2))
            (drop (length part - diff_removed_edge) part))
      ∙ ap (λ t. t ++ tail) (removed-shown old n (take diff_removed_edge part))
      ∙ hidden)
]
  where
    tail : List Shown
    tail = shown (
        lines_deleted (length part - diff_removed_edge * 2)
        ∷ removed_rows old (n + diff_removed_edge + (length part - diff_removed_edge * 2))
            (drop (length part - diff_removed_edge) part))

    hidden : tail ≡ []
    hidden =
        unfold shown in
        removed-shown old (n + diff_removed_edge + (length part - diff_removed_edge * 2))
          (drop (length part - diff_removed_edge) part)

module _ (lines hashes : List Str) (covered : length lines ≤ length hashes) where
  get_or-append : (xs ys : List Str) (k : ℕ) → get_or (xs ++ ys) (length xs + k) [] ≡ get_or ys k []
  get_or-append [] ys k = ap (λ m. get_or ys m []) (zero_left k)
    where
      zero_left : (m : ℕ) → 0 + m ≡ m
      zero_left m = omega arith
  get_or-append (x ∷ xs) ys k =
      ap (λ m. get_or (x ∷ xs ++ ys) m []) (suc_left k) ∙ get_or-append xs ys k
    where
      suc_left : (m : ℕ) → suc (length xs) + m ≡ suc (length xs + m)
      suc_left m = omega arith

  get_or-append_left :
      (xs ys : List Str) (k : ℕ) → k < length xs → get_or (xs ++ ys) k [] ≡ get_or xs k []
  get_or-append_left [] ys k h = elim h [ ]
  get_or-append_left (x ∷ xs) ys zero h = refl
  get_or-append_left (x ∷ xs) ys (suc k) h = get_or-append_left xs ys k (omega arith)

  StandAt-left : (n : ℕ) (xs ys : List Str) → StandAt lines n (xs ++ ys) → StandAt lines n xs
  StandAt-left n xs ys (p, b, f) = (
    p,
    omega (arith, length-append xs ys),
    λ k h. f k (omega (arith, h, length-append xs ys)) ∙ get_or-append_left xs ys k h,
  )

  StandAt-right :
      (n : ℕ) (xs ys : List Str) → StandAt lines n (xs ++ ys) → StandAt lines (n + length xs) ys
  StandAt-right n xs ys (p, b, f) = (
    omega arith,
    omega (arith, length-append xs ys),
    λ k h.
        ap (λ m. get_or lines m []) (moved k)
        ∙ f (length xs + k) (omega (arith, h, length-append xs ys))
        ∙ get_or-append xs ys k,
  )
    where
      moved : (k : ℕ) → n + length xs - 1 + k ≡ n - 1 + (length xs + k)
      moved k = omega (arith, p)

  -- What the loop promises of the parts left.
  abbrev Promise : ℕ → Option (List Str) → List Part → Type 0
  Promise context old parts =
      (last : Bool) (n o : ℕ)
      → is_separated parts ≡ true
      → StandAt lines n (new_lines parts)
      → IsAligned lines hashes (diff_from context hashes old last n o parts).rows
          (diff_from context hashes old last n o parts).served

  -- An unchanged part: the last one, or one before a change.
  unchanged-IsAligned :
      (context : ℕ) (old : Option (List Str)) (last : Bool) (n o : ℕ) (part : List Str)
      (parts : List Part)
      → Promise context old parts
      → next_is_change_or_end parts ≡ true
      → is_separated parts ≡ true
      → StandAt lines n (part ++ new_lines parts)
      → IsAligned lines hashes
          ((gap_of context hashes last (next_is_change parts) n part).emitted.rows
            ++ (diff_from context hashes old false
                (n + (gap_of context hashes last (next_is_change parts) n part).moved)
                (o + (gap_of context hashes last (next_is_change parts) n part).moved)
                parts).rows)
          ((gap_of context hashes last (next_is_change parts) n part).emitted.served
            ++ (diff_from context hashes old false
                (n + (gap_of context hashes last (next_is_change parts) n part).moved)
                (o + (gap_of context hashes last (next_is_change parts) n part).moved)
                parts).served)
  unchanged-IsAligned context old last n o part [] promise next sep h =
      append-IsAligned lines hashes covered (gap_of context hashes last false n part).emitted
        (diff_from context hashes old false (n + (gap_of context hashes last false n part).moved)
          (o + (gap_of context hashes last false n part).moved) [])
        (gap_of-IsAligned lines hashes covered context last false n part
          (StandAt-left n part (new_lines []) h))
        (unfold diff_from in no_rows-IsAligned lines hashes covered)
  unchanged-IsAligned context old last n o part (q ∷ qs) promise next sep h =
      rw (next, gap_of-moved lines hashes covered context last n part)
        (append-IsAligned lines hashes covered (gap_of context hashes last true n part).emitted
          (diff_from context hashes old false (n + length part) (o + length part) (q ∷ qs))
          (gap_of-IsAligned lines hashes covered context last true n part
            (StandAt-left n part (new_lines (q ∷ qs)) h))
          (promise false (n + length part) (o + length part) sep
            (StandAt-right n part (new_lines (q ∷ qs)) h)))

  part-IsAligned :
      (context : ℕ) (old : Option (List Str)) (last : Bool) (n o : ℕ) (added removed : Bool)
      (value : Str) (parts : List Part)
      → Promise context old parts
      → is_separated (record { added = added; removed = removed; value = value } ∷ parts) ≡ true
      → StandAt lines n
          (new_lines (record { added = added; removed = removed; value = value } ∷ parts))
      → IsAligned lines hashes
          (diff_from context hashes old last n o
            (record { added = added; removed = removed; value = value } ∷ parts)).rows
          (diff_from context hashes old last n o
            (record { added = added; removed = removed; value = value } ∷ parts)).served
  unfolding diff_from new_lines is_separated
  part-IsAligned context old last n o true removed value parts promise sep h =
      let part : List Str =
        display_lines (record { added = true; removed = removed; value = value }) in
      append-IsAligned lines hashes covered (show_lines added_row hashes n part)
        (diff_from context hashes old true (n + length part) o parts)
        (show_lines-IsAligned lines hashes covered added_row (shows_added lines hashes covered) n
          part (StandAt-left n part (new_lines parts) h))
        (promise true (n + length part) o sep (StandAt-right n part (new_lines parts) h))
  part-IsAligned context old last n o false true value parts promise sep h =
      let part : List Str =
        display_lines (record { added = false; removed = true; value = value }) in
      append-IsAligned lines hashes covered
        (record { rows = format_removed_lines part old o; served = [] })
        (diff_from context hashes old true n (o + length part) parts)
        (format_removed_lines-shown part old o, tt) (promise true n (o + length part) sep h)
  part-IsAligned context old last n o false false value parts promise sep h =
      unchanged-IsAligned context old last n o
        (display_lines (record { added = false; removed = false; value = value })) parts promise
        (ground arith) (ground arith) h

  diff_from-IsAligned :
      (context : ℕ) (old : Option (List Str)) (parts : List Part) → Promise context old parts
  diff_from-IsAligned context old [] last n o sep h =
      unfold diff_from in no_rows-IsAligned lines hashes covered
  diff_from-IsAligned context old (part ∷ parts) last n o sep h =
      part-IsAligned context old last n o part.added part.removed part.value parts
        (λ last' n' o' s t. diff_from-IsAligned context old parts last' n' o' s t) sep h

-- The kept and added rows of a diff are exactly its served rows, each with the line of the new file at
-- the row's position and the anchor that this line has there, for parts of which no two unchanged
-- ones follow each other and an anchor for each new line.
pub gen_diff-shown :
    (parts : List Part) (context : ℕ) (hashes : List Str) (old_hashes : Option (List Str))
    → is_separated parts ≡ true
    → length (new_lines parts) ≤ length hashes
    → (shown (diff_from context hashes old_hashes false 1 1 parts).rows
        ≡ map
            (served_line (new_lines parts))
            (gen_diff parts context hashes old_hashes).served_rows)
      × All (HasAnchor hashes) (gen_diff parts context hashes old_hashes).served_rows
unfolding gen_diff
gen_diff-shown parts context hashes old_hashes sep covered =
    diff_from-IsAligned (new_lines parts) hashes covered context old_hashes parts false 1 1 sep
      (omega arith, omega arith, λ k h. ap (λ m. get_or (new_lines parts) m []) (zero_left k))
  where
    zero_left : (k : ℕ) → 1 - 1 + k ≡ k
    zero_left k = omega arith
