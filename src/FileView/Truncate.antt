-- ===== src/FileView/Truncate.antt =====
-- A truncated text is the longest head of its lines that fits both limits.
use dsh_better_edit.Prelude.{
  ℕ, suc, ◌+◌, ◌<◌, ◌≤◌, ◌≡◌, refl, ap, sym, true, false, ◌&&◌, List, [], ◌∷◌, ◌++◌, Str, ltb, leb,
  Bool-cases, inl, inr, ◌⊎◌, length, length-take, take, get_or, arith, ltb→lt, lt→ltb,
}
use dsh_better_edit.Text.{lf, join_nl}
use dsh_better_edit.FileView.{
  TruncationResult, HeadLines, push_line, line_bytes, take_lines, split_lines_for_counting,
  truncate_head, cut_to, first_exceeds,
}

-- A head of the lines that fits both limits, and that no further line would fit.
abbrev pub IsLongestHead : (Str → ℕ) → List Str → ℕ → ℕ → TruncationResult → Type 0
IsLongestHead byte_length lines max_lines max_bytes t =
    (t.content ≡ join_nl (take t.output_lines lines))
    × (t.output_bytes ≡ byte_length t.content)
    × (t.output_lines ≤ length lines)
    × (t.output_lines ≤ max_lines)
    × (t.output_bytes ≤ max_bytes)
    × ((t.output_lines ≡ max_lines)
        ⊎ ((t.output_lines ≡ length lines)
            ⊎ (max_bytes < byte_length (join_nl (take (suc t.output_lines) lines)))))

-- The whole text where it fits both limits, and otherwise the longest head of its lines.
abbrev pub IsTruncation : (Str → ℕ) → Str → ℕ → ℕ → TruncationResult → Type 0
IsTruncation byte_length content max_lines max_bytes t =
    let lines = split_lines_for_counting content in
    ((length lines ≤ max_lines)
      × (byte_length content ≤ max_bytes)
      × (t.content ≡ content)
      × (t.output_lines ≡ length lines)
      × (t.was_truncated ≡ false))
    ⊎ (((max_lines < length lines) ⊎ (max_bytes < byte_length content))
        × (t.was_truncated ≡ true)
        × IsLongestHead byte_length lines max_lines max_bytes t)

module _ (byte_length : Str → ℕ) (byte_length_empty : byte_length [] ≡ 0)
    (byte_length_join : (a b : Str)
      → byte_length (a ++ lf ∷ b) ≡ byte_length a + (1 + byte_length b)) where
  -- The bytes of lines from line `i` on, each newline with the line behind it.
  unfoldable total : ℕ → List Str → ℕ
  total i [] = 0
  total i (line ∷ lines) = line_bytes byte_length i line + total (suc i) lines

  line_bytes-suc : (i : ℕ) (line : Str) → line_bytes byte_length (suc i) line ≡ byte_length line + 1
  line_bytes-suc i line = rw (lt→ltb 0 (suc i) (omega arith)) refl

  total_shift : (i : ℕ) (lines : List Str) → total (suc i) lines ≡ total 1 lines
  unfolding total
  total_shift i [] = refl
  total_shift i (line ∷ lines) = omega (
    arith,
    line_bytes-suc i line,
    line_bytes-suc 0 line,
    total_shift (suc i) lines,
    total_shift 1 lines,
  )

  joined : (lines : List Str) → byte_length (join_nl lines) ≡ total 0 lines
  unfolding total join_nl
  joined [] = byte_length_empty
  joined (line ∷ []) = omega arith
  joined (line ∷ next ∷ lines) = omega (
    arith,
    byte_length_join line (join_nl (next ∷ lines)),
    joined (next ∷ lines),
    line_bytes-suc 0 next,
    total_shift 1 lines,
  )

  -- What the loop has taken of the lines from line `i` on.
  abbrev HasTaken : ℕ → ℕ → ℕ → ℕ → List Str → HeadLines → Type 0
  HasTaken max_lines max_bytes i used lines t =
      (t.lines ≡ take (length t.lines) lines)
      × (i + length t.lines ≤ max_lines)
      × (used + total i t.lines ≤ max_bytes)
      × ((i + length t.lines ≡ max_lines)
          ⊎ ((length t.lines ≡ length lines)
              ⊎ (max_bytes < used + total i (take (suc (length t.lines)) lines))))

  -- A line that fits goes in front of what the rest of the loop takes.
  pushed :
      (max_lines max_bytes i used : ℕ) (line : Str) (lines : List Str) (t : HeadLines)
      → HasTaken max_lines max_bytes (suc i) (used + line_bytes byte_length i line) lines t
      → HasTaken max_lines max_bytes i used (line ∷ lines) (push_line line t)
  unfolding total
  pushed max_lines max_bytes i used line lines t (a, b, c, inl e) =
      (ap (λ rest. line ∷ rest) a, omega arith, omega arith, inl (omega arith))
  pushed max_lines max_bytes i used line lines t (a, b, c, inr (inl e)) =
      (ap (λ rest. line ∷ rest) a, omega arith, omega arith, inr (inl (ap suc e)))
  pushed max_lines max_bytes i used line lines t (a, b, c, inr (inr e)) =
      (ap (λ rest. line ∷ rest) a, omega arith, omega arith, inr (inr (omega arith)))

  take_lines-HasTaken :
      (max_lines max_bytes i used : ℕ) (lines : List Str)
      → i ≤ max_lines
      → used ≤ max_bytes
      → HasTaken max_lines max_bytes i used lines
          (take_lines byte_length max_lines max_bytes i used lines)
  unfolding take_lines total
  take_lines-HasTaken max_lines max_bytes i used [] h g =
      (refl, omega arith, omega arith, inr (inl refl))
  take_lines-HasTaken max_lines max_bytes i used (line ∷ lines) h g =
      elim (Bool-cases (ltb i max_lines)) [
        | inr full ↦ rw full (refl, omega arith, omega arith, inl (ground arith))
        | inl room ↦ elim (Bool-cases (ltb max_bytes (used + line_bytes byte_length i line))) [
          | inl over ↦
              rw (room, over)
                (
                  refl,
                  omega arith,
                  omega arith,
                  inr (
                      inr (
                        omega
                          (arith, ltb→lt max_bytes (used + line_bytes byte_length i line) over))),
                )
          | inr fits ↦
              rw (room, fits)
                (pushed max_lines max_bytes i used line lines
                  (take_lines byte_length max_lines max_bytes (suc i)
                    (used + line_bytes byte_length i line) lines)
                  (take_lines-HasTaken max_lines max_bytes (suc i)
                    (used + line_bytes byte_length i line) lines (ground arith) (ground arith)))
        ]
      ]

  cut_to-IsLongestHead :
      (lines : List Str) (total_bytes max_lines max_bytes : ℕ) (t : HeadLines)
      → HasTaken max_lines max_bytes 0 0 lines t
      → IsLongestHead byte_length lines max_lines max_bytes
          (cut_to byte_length t (length lines) total_bytes max_lines max_bytes)
  cut_to-IsLongestHead lines total_bytes max_lines max_bytes t (a, b, c, e) = (
    ap join_nl a,
    refl,
    omega (arith, ap length a, length-take (length t.lines) lines),
    omega arith,
    omega (arith, joined t.lines),
    elim e [
      | inl all ↦ inl (omega arith)
      | inr (inl whole) ↦ inr (inl whole)
      | inr (inr more) ↦ inr (inr (omega (arith, joined (take (suc (length t.lines)) lines))))
    ],
  )

  first_exceeds-IsLongestHead :
      (lines : List Str) (total_bytes max_lines max_bytes : ℕ)
      → max_bytes < byte_length (get_or lines 0 [])
      → IsLongestHead byte_length lines max_lines max_bytes
          (first_exceeds (length lines) total_bytes max_lines max_bytes)
  unfolding join_nl
  first_exceeds-IsLongestHead [] total_bytes max_lines max_bytes h =
      (refl, sym byte_length_empty, omega arith, omega arith, omega arith, inr (inl refl))
  first_exceeds-IsLongestHead (line ∷ lines) total_bytes max_lines max_bytes h =
      (refl, sym byte_length_empty, omega arith, omega arith, omega arith, inr (inr h))

  over_a_limit : (a b c d : ℕ) → (leb a b && leb c d) ≡ false → (b < a) ⊎ (d < c)
  over_a_limit a b c d h = ground arith

  -- A truncation hands the text on as it is where it fits both limits; otherwise it shows the longest
  -- head of its lines that fits them. The bytes of the empty text are 0, and those of two texts joined by a
  -- newline are those of the texts and one more.
  pub truncate_head-IsTruncation :
      (content : Str) (max_lines max_bytes : ℕ)
      → IsTruncation byte_length content max_lines max_bytes
          (truncate_head byte_length content max_lines max_bytes)
  unfolding truncate_head
  truncate_head-IsTruncation content max_lines max_bytes =
      let lines = split_lines_for_counting content in
      let bytes = byte_length content in
      elim (Bool-cases (leb (length lines) max_lines && leb bytes max_bytes)) [
        | inl fits ↦ rw fits (inl (ground arith))
        | inr over ↦ elim (Bool-cases (ltb max_bytes (byte_length (get_or lines 0 [])))) [
          | inl long ↦
              rw (over, long)
                (inr (
                  over_a_limit (length lines) max_lines bytes max_bytes over,
                  refl,
                  first_exceeds-IsLongestHead lines bytes max_lines max_bytes
                      (ltb→lt max_bytes (byte_length (get_or lines 0 [])) long),
                ))
          | inr short ↦
              rw (over, short)
                (inr (
                  over_a_limit (length lines) max_lines bytes max_bytes over,
                  refl,
                  cut_to-IsLongestHead lines bytes max_lines max_bytes
                      (take_lines byte_length max_lines max_bytes 0 0 lines)
                      (take_lines-HasTaken max_lines max_bytes 0 0 lines (omega arith)
                        (omega arith)),
                ))
        ]
      ]
