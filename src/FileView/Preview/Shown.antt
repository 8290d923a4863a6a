-- ===== src/FileView/Preview/Shown.antt =====
-- What a page shows is what it serves.
use dsh_better_edit.Prelude.{
  ℕ, ◌+◌, ◌≤◌, ◌≡◌, refl, ap, sym, ◌∙◌, ◌≢◌, true, false, List, [], ◌∷◌, ◌++◌, Str, ◌&&◌, ltb,
  Bool-cases, inl, inr, ◌⊎◌, length, take, map, arith, none, some,
}
use dsh_better_edit.Text.{lf, join_nl}
use dsh_better_edit.Text.Lines.{AllLines}
use dsh_better_edit.FileView.{TruncationResult, split_lines_for_counting, truncate_head}
use dsh_better_edit.FileView.Truncate.{IsTruncation, truncate_head-IsTruncation}
use dsh_better_edit.FileView.Preview.{
  hashline_rows, fmt_region, Hint, NormalPreview, PreviewArgs, hint_of, rows_served, preview_of,
  build_normal_preview,
}
use dsh_better_edit.FileView.Preview.Rows.{
  row_of, length-hashline_rows, map-rows_served, length-rows_served, fmt_region-some,
  split_lines_for_counting-rows, take_all,
}

-- The page has the rows of its served lines and no more, within both limits, and either shows all lines
-- or names the next one to read, or both.
abbrev pub IsShown : (Str → ℕ) → PreviewArgs → List Str → NormalPreview → Type 0
IsShown byte_length a lines p =
    (p.preview ≡ join_nl (map (row_of lines a.start_line) p.served))
    × (byte_length p.preview ≤ a.max_bytes)
    × (length p.served ≤ a.max_trunc_lines)
    × (((p.hint ≡ none) × (length p.served ≡ length lines))
        ⊎ ((h : Hint) × (p.hint ≡ some h) × (h.next_offset ≡ a.start_line + length p.served)))

module _ (byte_length : Str → ℕ) (a : PreviewArgs) (lines : List Str) (nonempty : lines ≢ [])
    (region : fmt_region a.selected_hashes lines ≡ some a.formatted)
    (are_hashes : AllLines a.selected_hashes) (are_lines : AllLines lines)
    (starts : 1 ≤ a.start_line) (ends : a.end_idx + 1 ≡ a.start_line + length lines) where
  counted_region : split_lines_for_counting a.formatted ≡ hashline_rows a.selected_hashes lines
  counted_region =
      let region_parts = fmt_region-some a.selected_hashes lines a.formatted region in
      ap split_lines_for_counting region_parts.1
      ∙ split_lines_for_counting-rows a.selected_hashes lines nonempty region_parts.0 are_hashes
          are_lines

  -- A head of the rows is the rows of as many served lines.
  head_of_rows :
      (count : ℕ)
      → count ≤ length lines
      → join_nl (take count (hashline_rows a.selected_hashes lines))
        ≡ join_nl
            (map (row_of lines a.start_line) (rows_served a.start_line count 0 a.selected_hashes))
  head_of_rows count h =
      let region_parts = fmt_region-some a.selected_hashes lines a.formatted region in
      ap join_nl (
        sym (
          map-rows_served a.selected_hashes lines a.start_line count 0 region_parts.0
            (omega arith)))

  counted_lines : length (split_lines_for_counting a.formatted) ≡ length lines
  counted_lines =
      let region_parts = fmt_region-some a.selected_hashes lines a.formatted region in
      ap length counted_region ∙ length-hashline_rows a.selected_hashes lines region_parts.0

  -- An unread rest is hinted at with the line behind the last shown one.
  hint_of-whole :
      (t : TruncationResult)
      → t.was_truncated ≡ false
      → (hint_of a t ≡ none)
        ⊎ ((h : Hint) × (hint_of a t ≡ some h) × (h.next_offset ≡ a.start_line + length lines))
  unfolding hint_of
  hint_of-whole t w = elim (Bool-cases (a.hint_remainder && ltb a.end_idx a.total_lines)) [
    | inl more ↦ rw (w, more) (inr (_, refl, ends))
    | inr last ↦ rw (w, last) (inl refl)
  ]

  hint_of-head :
      (t : TruncationResult)
      → t.was_truncated ≡ true
      → (h : Hint) × (hint_of a t ≡ some h) × (h.next_offset ≡ a.start_line + t.output_lines)
  unfolding hint_of
  hint_of-head t w = rw w (_, refl, omega arith)

  preview_of-IsShown :
      (t : TruncationResult)
      → IsTruncation byte_length a.formatted a.max_trunc_lines a.max_bytes t
      → IsShown byte_length a lines (preview_of a t)
  preview_of-IsShown t (inl (f, b, c, n, w)) =
      let count : length (rows_served a.start_line t.output_lines 0 a.selected_hashes)
          ≡ t.output_lines =
        length-rows_served a.start_line t.output_lines 0 a.selected_hashes in
      let region_parts = fmt_region-some a.selected_hashes lines a.formatted region in
      let every : take t.output_lines (hashline_rows a.selected_hashes lines)
          ≡ hashline_rows a.selected_hashes lines =
        take_all t.output_lines (hashline_rows a.selected_hashes lines) (
          omega
            (arith, length-hashline_rows a.selected_hashes lines region_parts.0, counted_lines)) in
      (
        c
            ∙ region_parts.1
            ∙ ap join_nl (sym every)
            ∙ head_of_rows t.output_lines (omega (arith, counted_lines)),
        rw c b,
        omega (arith, counted_lines),
        elim (hint_of-whole t w) [
          | inl e ↦ inl (e, omega (arith, counted_lines))
          | inr (h, e, g) ↦ inr (h, e, omega (arith, counted_lines))
        ],
      )
  preview_of-IsShown t (inr (o, w, (c, b, l, m, u, e))) =
      let count : length (rows_served a.start_line t.output_lines 0 a.selected_hashes)
          ≡ t.output_lines =
        length-rows_served a.start_line t.output_lines 0 a.selected_hashes in
      let hinted = hint_of-head t w in
      (
        c
            ∙ ap (λ rows. join_nl (take t.output_lines rows)) counted_region
            ∙ head_of_rows t.output_lines (omega (arith, counted_lines)),
        omega arith,
        omega arith,
        inr (hinted.0, hinted.1, omega (arith, hinted.2)),
      )

  -- A page of at least one line has, before its hint, the rows of the lines that it serves and no
  -- more, within both limits; without a hint it has all lines, and otherwise the hint names the line
  -- behind the last one. No anchor or line has a newline, the text is the region of the lines, and they
  -- run from the page's start to its end. The empty text has no bytes, and two texts joined by a newline
  -- have their bytes and one more.
  pub build_normal_preview-IsShown :
      (byte_length [] ≡ 0)
      → ((s t : Str) → byte_length (s ++ lf ∷ t) ≡ byte_length s + (1 + byte_length t))
      → IsShown byte_length a lines (build_normal_preview byte_length a)
  unfolding build_normal_preview
  build_normal_preview-IsShown empty join =
      preview_of-IsShown (truncate_head byte_length a.formatted a.max_trunc_lines a.max_bytes) (
        truncate_head-IsTruncation byte_length empty join a.formatted a.max_trunc_lines a.max_bytes)
