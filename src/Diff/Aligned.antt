-- ===== src/Diff/Aligned.antt =====
-- The rows of a diff carry the anchors of their lines.
use dsh_better_edit.Prelude.{
  ℕ, suc, ◌+◌, ◌-◌, ◌*◌, ◌<◌, ◌≤◌, ◌≡◌, refl, ap, sym, ◌∙◌, Bool, true, false, Option, some, List,
  [], ◌∷◌, ◌++◌, Str, ltb, if◌then◌else◌, Bool-cases, inl, inr, length, length-take, length-drop,
  get_elem?, get_elem?-total, get_or, get_or-take, get_or-drop, take, drop, map, All, arith,
}
use mathlib.Core.List.{map-append}
use dsh_better_edit.AnchorPipeline.{ServedRow}
use dsh_better_edit.Diff.{
  DiffRow, kept_row, added_row, removed_row, dots, lines_untouched, lines_deleted, Emitted,
  append_emitted, show_lines, gap_of,
}

-- A row of the new file, its line with its anchor.
pub record Shown : Type 0 where
  pub line : Str
  pub hash : Option Str

-- The rows that show lines of the new file, in order.
unfoldable pub shown : List DiffRow → List Shown
shown [] = []
shown (kept_row line hash ∷ rows) = record { line = line; hash = hash } ∷ shown rows
shown (added_row line hash ∷ rows) = record { line = line; hash = hash } ∷ shown rows
shown (removed_row line hash ∷ rows) = shown rows
shown (dots ∷ rows) = shown rows
shown (lines_untouched n ∷ rows) = shown rows
shown (lines_deleted n ∷ rows) = shown rows

pub shown-append : (xs ys : List DiffRow) → shown (xs ++ ys) ≡ shown xs ++ shown ys
unfolding shown
shown-append [] ys = refl
shown-append (kept_row line hash ∷ xs) ys =
    ap (λ t. record { line = line; hash = hash } ∷ t) (shown-append xs ys)
shown-append (added_row line hash ∷ xs) ys =
    ap (λ t. record { line = line; hash = hash } ∷ t) (shown-append xs ys)
shown-append (removed_row line hash ∷ xs) ys = shown-append xs ys
shown-append (dots ∷ xs) ys = shown-append xs ys
shown-append (lines_untouched n ∷ xs) ys = shown-append xs ys
shown-append (lines_deleted n ∷ xs) ys = shown-append xs ys

-- The line of the new file at the position of a served row, with the row's anchor.
abbrev pub served_line : List Str → ServedRow → Shown
served_line lines r = record { line = get_or lines r.position []; hash = some r.hash }

-- The anchor of a served row is the one at its position.
abbrev pub HasAnchor : List Str → ServedRow → Type 0
HasAnchor hashes r = get_elem? hashes r.position ≡ some r.hash

-- The served rows are the shown ones, and carry the anchors of their positions.
abbrev pub IsAligned : List Str → List Str → List DiffRow → List ServedRow → Type 0
IsAligned lines hashes rows served =
    (shown rows ≡ map (served_line lines) served) × All (HasAnchor hashes) served

-- The lines stand in the file from the line number `n` on.
abbrev pub StandAt : List Str → ℕ → List Str → Type 0
StandAt lines n part =
    (1 ≤ n)
    × (n + length part ≤ length lines + 1)
    × ((k : ℕ) → k < length part → get_or lines (n - 1 + k) [] ≡ get_or part k [])

All-append {ℓ κ} :
    {A : Type ℓ} (P : A → Type κ) (xs ys : List A) → All P xs → All P ys → All P (xs ++ ys)
All-append P [] ys h k = k
All-append P (x ∷ xs) ys (p, h) k = (p, All-append P xs ys h k)

module _ (lines hashes : List Str) (covered : length lines ≤ length hashes) where
  pub append-IsAligned :
      (a b : Emitted)
      → IsAligned lines hashes a.rows a.served
      → IsAligned lines hashes b.rows b.served
      → IsAligned lines hashes (a.rows ++ b.rows) (a.served ++ b.served)
  append-IsAligned a b (e, h) (f, k) = (
    shown-append a.rows b.rows
        ∙ ap (λ t. t ++ shown b.rows) e
        ∙ ap (λ t. map (served_line lines) a.served ++ t) f
        ∙ sym (map-append (served_line lines) a.served b.served),
    All-append (HasAnchor hashes) a.served b.served h k,
  )

  StandAt-tail :
      (n : ℕ) (l : Str) (part : List Str) → StandAt lines n (l ∷ part) → StandAt lines (suc n) part
  StandAt-tail n l part (p, b, f) = (
    omega arith,
    omega arith,
    λ k h. ap (λ m. get_or lines m []) (shifted k) ∙ f (suc k) (omega arith),
  )
    where
      shifted : (k : ℕ) → suc n - 1 + k ≡ n - 1 + suc k
      shifted k = omega arith

  -- Lines shown in place are aligned.
  pub show_lines-IsAligned :
      (row : Str → Option Str → DiffRow)
      → ((line : Str) (hash : Option Str) (rows : List DiffRow)
          → shown (row line hash ∷ rows) ≡ record { line = line; hash = hash } ∷ shown rows)
      → (n : ℕ) (part : List Str) → StandAt lines n part
      → IsAligned lines hashes
          (show_lines row hashes n part).rows
          (show_lines row hashes n part).served
  unfolding show_lines
  show_lines-IsAligned row shows n [] h = (unfold shown in refl, tt)
  show_lines-IsAligned row shows n (l ∷ part) h =
      let (hash, found) = get_elem?-total hashes (n - 1) (omega (arith, h.0, h.1)) in
      let (e, rest) = show_lines-IsAligned row shows (suc n) part (StandAt-tail n l part h) in
      let first : get_or lines (n - 1) [] ≡ l =
        ap (λ m. get_or lines m []) (plus_zero (n - 1)) ∙ h.2 0 (omega arith) in
      rw (found, shows l (some hash) (show_lines row hashes (suc n) part).rows)
        (
          ap
                (λ t.
                  record { line = t; hash = some hash }
                  ∷ shown (show_lines row hashes (suc n) part).rows)
                (sym first)
              ∙ ap (λ t. served_line lines (record { position = n - 1; hash = hash }) ∷ t) e,
          (found, rest),
        )
    where
      plus_zero : (k : ℕ) → k ≡ k + 0
      plus_zero k = omega arith

  shows_kept :
      (line : Str) (hash : Option Str) (rows : List DiffRow)
      → shown (kept_row line hash ∷ rows) ≡ record { line = line; hash = hash } ∷ shown rows
  unfolding shown
  shows_kept line hash rows = refl

  pub shows_added :
      (line : Str) (hash : Option Str) (rows : List DiffRow)
      → shown (added_row line hash ∷ rows) ≡ record { line = line; hash = hash } ∷ shown rows
  unfolding shown
  shows_added line hash rows = refl

  StandAt-take : (n c : ℕ) (part : List Str) → StandAt lines n part → StandAt lines n (take c part)
  StandAt-take n c part (p, b, f) = (
    p,
    omega (arith, length-take c part),
    λ k h.
        f k (omega (arith, h, length-take c part))
        ∙ sym (get_or-take c part k [] (omega (arith, h, length-take c part))),
  )

  StandAt-drop :
      (n c : ℕ) (part : List Str)
      → c ≤ length part
      → StandAt lines n part
      → StandAt lines (n + c) (drop c part)
  StandAt-drop n c part le (p, b, f) = (
    omega arith,
    omega (arith, length-drop c part),
    λ k h.
        ap (λ m. get_or lines m []) (moved k)
        ∙ f (c + k) (omega (arith, h, length-drop c part))
        ∙ sym (get_or-drop c part k []),
  )
    where
      moved : (k : ℕ) → n + c - 1 + k ≡ n - 1 + (c + k)
      moved k = omega (arith, p)

  pub no_rows-IsAligned : IsAligned lines hashes [] []
  no_rows-IsAligned = (unfold shown in refl, tt)

  -- A part that hides lines shows the others in place.
  pub gap_of-IsAligned :
      (context : ℕ) (last next : Bool) (n : ℕ) (part : List Str)
      → StandAt lines n part
      → IsAligned lines hashes
          (gap_of context hashes last next n part).emitted.rows
          (gap_of context hashes last next n part).emitted.served
  unfolding gap_of
  gap_of-IsAligned context false false n part h = no_rows-IsAligned
  gap_of-IsAligned context false true n part h =
      append-IsAligned
        (record { rows = if ltb 0 (length part - context) then dots ∷ [] else []; served = [] })
        (show_lines kept_row hashes (n + (length part - context))
          (drop (length part - context) part))
        (edge (ltb 0 (length part - context)))
        (show_lines-IsAligned kept_row shows_kept (n + (length part - context))
          (drop (length part - context) part)
          (StandAt-drop n (length part - context) part (omega arith) h))
    where
      edge : (b : Bool) → IsAligned lines hashes (if b then dots ∷ [] else []) []
      edge true = (unfold shown in refl, tt)
      edge false = (unfold shown in refl, tt)
  gap_of-IsAligned context true true n part h =
      elim (Bool-cases (ltb (context * 2) (length part))) [
        | inl large ↦ rw large (
            append-IsAligned (show_lines kept_row hashes n (take context part))
              (append_emitted
                (record { rows = lines_untouched (length part - context * 2) ∷ []; served = [] })
                (show_lines kept_row hashes (n + (length part - context))
                  (drop (length part - context) part)))
              (show_lines-IsAligned kept_row shows_kept n (take context part)
                (StandAt-take n context part h))
              (append-IsAligned
                (record { rows = lines_untouched (length part - context * 2) ∷ []; served = [] })
                (show_lines kept_row hashes (n + (length part - context))
                  (drop (length part - context) part))
                (unfold shown in refl, tt)
                (show_lines-IsAligned kept_row shows_kept (n + (length part - context))
                  (drop (length part - context) part)
                  (StandAt-drop n (length part - context) part (omega arith) h))))
        | inr small ↦ rw small (show_lines-IsAligned kept_row shows_kept n part h)
      ]
  gap_of-IsAligned context true false n part h = elim (Bool-cases (ltb context (length part))) [
    | inl large ↦ rw large (
        show_lines-IsAligned kept_row shows_kept n (take context part)
          (StandAt-take n context part h))
    | inr small ↦ rw small (show_lines-IsAligned kept_row shows_kept n part h)
  ]

  -- A part before a change moves the cursors past all its lines.
  pub gap_of-moved :
      (context : ℕ) (last : Bool) (n : ℕ) (part : List Str)
      → (gap_of context hashes last true n part).moved ≡ length part
  unfolding gap_of
  gap_of-moved context last n part = ground arith
