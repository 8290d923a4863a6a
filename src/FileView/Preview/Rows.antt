-- ===== src/FileView/Preview/Rows.antt =====
-- The rows of a region: counted as lines again, and read off by the rows that are served.
use dsh_better_edit.Prelude.{
  ℕ, zero, suc, ◌+◌, ◌-◌, ◌<◌, ◌≤◌, ◌≡◌, refl, ap, ◌∙◌, ◌≢◌, false, List, [], ◌∷◌, ◌++◌, Str, ◌==◌,
  Bool-cases, inl, inr, length, take, drop, get_or, map, All, arith, some,
}
use dsh_better_edit.Text.{lf, join_nl, split_nl, ends_with_nl}
use dsh_better_edit.Text.Lines.{IsLine, AllLines, split_nl-join_nl}
use dsh_better_edit.HashAssign.{hash_sep}
use dsh_better_edit.AnchorPipeline.{ServedRow}
use dsh_better_edit.FileView.{split_lines_for_counting}
use dsh_better_edit.FileView.Preview.{hashline_row, hashline_rows, fmt_region, rows_served}

ends_with_nl-IsLine : (s : Str) → IsLine s → ends_with_nl s ≡ false
unfolding ends_with_nl
ends_with_nl-IsLine [] h = refl
ends_with_nl-IsLine (c ∷ []) (h, g) = ground arith
ends_with_nl-IsLine (c ∷ d ∷ s) (h, g) = ends_with_nl-IsLine (d ∷ s) g

ends_with_nl-append : (a : Str) (c : ℕ) (b : Str) → ends_with_nl (a ++ c ∷ b) ≡ ends_with_nl (c ∷ b)
unfolding ends_with_nl
ends_with_nl-append [] c b = refl
ends_with_nl-append (x ∷ []) c b = refl
ends_with_nl-append (x ∷ y ∷ a) c b = ends_with_nl-append (y ∷ a) c b

-- A row has a character and no newline.
abbrev IsRow : Str → Type 0
IsRow r = (r ≢ []) × IsLine r

join_nl-ne-nil : (r : Str) (rs : List Str) → r ≢ [] → join_nl (r ∷ rs) ≢ []
unfolding join_nl
join_nl-ne-nil [] rs h = λ e. h refl
join_nl-ne-nil (c ∷ r) [] h = h
join_nl-ne-nil (c ∷ r) (m ∷ ms) h = λ e. cc

ends_with_nl-cons : (c : ℕ) (s : Str) → s ≢ [] → ends_with_nl (c ∷ s) ≡ ends_with_nl s
unfolding ends_with_nl
ends_with_nl-cons c [] h = absurd (h refl)
ends_with_nl-cons c (d ∷ s) h = refl

ends_with_nl-join_nl : (rows : List Str) → All IsRow rows → ends_with_nl (join_nl rows) ≡ false
unfolding join_nl ends_with_nl
ends_with_nl-join_nl [] h = refl
ends_with_nl-join_nl (r ∷ []) ((n, l), h) = ends_with_nl-IsLine r l
ends_with_nl-join_nl (r ∷ m ∷ ms) ((n, l), ((k, g), h)) =
    ends_with_nl-append r lf (join_nl (m ∷ ms))
    ∙ ends_with_nl-cons lf (join_nl (m ∷ ms)) (join_nl-ne-nil m ms k)
    ∙ ends_with_nl-join_nl (m ∷ ms) ((k, g), h)

rows_are_lines : (rows : List Str) → All IsRow rows → AllLines rows
rows_are_lines [] h = tt
rows_are_lines (r ∷ rs) ((n, l), h) = (l, rows_are_lines rs h)

counted : (s : Str) → ends_with_nl s ≡ false → s ≢ [] → split_lines_for_counting s ≡ split_nl s
unfolding split_lines_for_counting
counted [] h n = absurd (n refl)
counted (c ∷ s) h n = rw h refl

split_lines_for_counting-join_nl :
    (r : Str) (rs : List Str)
    → All IsRow (r ∷ rs)
    → split_lines_for_counting (join_nl (r ∷ rs)) ≡ r ∷ rs
split_lines_for_counting-join_nl r rs ((n, l), h) =
    counted (join_nl (r ∷ rs)) (ends_with_nl-join_nl (r ∷ rs) ((n, l), h)) (join_nl-ne-nil r rs n)
    ∙ split_nl-join_nl (r ∷ rs) (λ e. cc) (rows_are_lines (r ∷ rs) ((n, l), h))

drop-lt :
    {A : Type 0} (xs : List A) (i : ℕ) (d : A)
    → i < length xs
    → drop i xs ≡ get_or xs i d ∷ drop (suc i) xs
drop-lt [] i d h = elim h [ ]
drop-lt (x ∷ xs) zero d h = refl
drop-lt (x ∷ xs) (suc i) d h = drop-lt xs i d (omega arith)

pub length-hashline_rows :
    (hashes lines : List Str)
    → length hashes ≡ length lines
    → length (hashline_rows hashes lines) ≡ length lines
unfolding hashline_rows
length-hashline_rows [] lines h = h
length-hashline_rows (hash ∷ hashes) [] h = refl
length-hashline_rows (hash ∷ hashes) (line ∷ lines) h =
    ap suc (length-hashline_rows hashes lines (omega arith))

get_or-hashline_rows :
    (hashes lines : List Str) (i : ℕ)
    → length hashes ≡ length lines
    → i < length lines
    → get_or (hashline_rows hashes lines) i []
      ≡ hashline_row (get_or hashes i []) (get_or lines i [])
unfolding hashline_rows
get_or-hashline_rows [] [] i h g = elim g [ ]
get_or-hashline_rows [] (line ∷ lines) i h g = absurd (omega arith)
get_or-hashline_rows (hash ∷ hashes) [] i h g = elim g [ ]
get_or-hashline_rows (hash ∷ hashes) (line ∷ lines) zero h g = refl
get_or-hashline_rows (hash ∷ hashes) (line ∷ lines) (suc i) h g =
    get_or-hashline_rows hashes lines i (omega arith) (omega arith)

pub take_all : {A : Type 0} (n : ℕ) (xs : List A) → n ≡ length xs → take n xs ≡ xs
take_all zero [] h = refl
take_all zero (x ∷ xs) h = absurd (omega arith)
take_all (suc n) [] h = absurd (omega arith)
take_all (suc n) (x ∷ xs) h = ap (λ t. x ∷ t) (take_all n xs (omega arith))

-- The row of a served position: its anchor before the line that stands there.
abbrev pub row_of : List Str → ℕ → ServedRow → Str
row_of lines start_line r = hashline_row r.hash (get_or lines (r.position - (start_line - 1)) [])

pub map-rows_served :
    (hashes lines : List Str) (start_line count index : ℕ)
    → length hashes ≡ length lines
    → count + index ≤ length lines
    → map (row_of lines start_line) (rows_served start_line count index hashes)
      ≡ take count (drop index (hashline_rows hashes lines))
unfolding rows_served
map-rows_served hashes lines start_line zero index h g = refl
map-rows_served hashes lines start_line (suc count) index h g =
    let at : start_line - 1 + index - (start_line - 1) ≡ index = omega arith in
    let inside : index < length (hashline_rows hashes lines) =
      omega (arith, length-hashline_rows hashes lines h) in
    rw
      (
        drop-lt (hashline_rows hashes lines) index [] inside,
        at,
        get_or-hashline_rows hashes lines index h (omega arith),
      )
      (ap (λ t. hashline_row (get_or hashes index []) (get_or lines index []) ∷ t)
        (map-rows_served hashes lines start_line count (suc index) h (omega arith)))

pub length-rows_served :
    (start_line count index : ℕ) (hashes : List Str)
    → length (rows_served start_line count index hashes) ≡ count
unfolding rows_served
length-rows_served start_line zero index hashes = refl
length-rows_served start_line (suc count) index hashes =
    ap suc (length-rows_served start_line count (suc index) hashes)

IsLine-append : (a b : Str) → IsLine a → IsLine b → IsLine (a ++ b)
IsLine-append [] b h g = g
IsLine-append (c ∷ a) b (n, h) g = (n, IsLine-append a b h g)

hashline_row-ne-nil : (hash line : Str) → hashline_row hash line ≢ []
hashline_row-ne-nil [] line = λ e. cc
hashline_row-ne-nil (c ∷ hash) line = λ e. cc

hashline_rows-IsRow :
    (hashes lines : List Str)
    → AllLines hashes
    → AllLines lines
    → All IsRow (hashline_rows hashes lines)
unfolding hashline_rows
hashline_rows-IsRow [] lines h g = tt
hashline_rows-IsRow (hash ∷ hashes) [] h g = tt
hashline_rows-IsRow (hash ∷ hashes) (line ∷ lines) (x, h) (y, g) = (
  (hashline_row-ne-nil hash line, IsLine-append hash (hash_sep ∷ line) x ((λ e. omega arith), y)),
  hashline_rows-IsRow hashes lines h g,
)

pub fmt_region-some :
    (hashes lines : List Str) (s : Str)
    → fmt_region hashes lines ≡ some s
    → (length hashes ≡ length lines) × (s ≡ join_nl (hashline_rows hashes lines))
unfolding fmt_region
fmt_region-some hashes lines s h = elim (Bool-cases (length hashes == length lines)) [
  | inl same ↦ (ground arith, cc)
  | inr differ ↦ absurd cc
]

-- A region of at least one line is counted as its rows.
pub split_lines_for_counting-rows :
    (hashes lines : List Str)
    → lines ≢ []
    → length hashes ≡ length lines
    → AllLines hashes
    → AllLines lines
    → split_lines_for_counting (join_nl (hashline_rows hashes lines)) ≡ hashline_rows hashes lines
unfolding hashline_rows
split_lines_for_counting-rows hashes [] n h x y = absurd (n refl)
split_lines_for_counting-rows [] (line ∷ lines) n h x y = absurd (omega arith)
split_lines_for_counting-rows (hash ∷ hashes) (line ∷ lines) n h x y =
    split_lines_for_counting-join_nl (hashline_row hash line) (hashline_rows hashes lines)
      (hashline_rows-IsRow (hash ∷ hashes) (line ∷ lines) x y)
