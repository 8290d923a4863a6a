-- ===== src/Text.antt =====
-- Line and line-ending helpers: src/utils.ts (`splitLines`, `visLines`, `clipLine`,
-- `firstNonEmptyIndex`, `lastNonEmptyIndex`) and the ending helpers of src/edit-diff.ts.
pub mod Lines
pub mod Endings
use dsh_better_edit.Prelude.{
  ℕ, zero, suc, ◌+◌, ◌-◌, Bool, true, false, ◌&&◌, Option, none, some, List, [], ◌∷◌, ◌++◌, Str,
  units, ltb, ◌==◌, if◌then◌else◌, length, take,
}

abbrev pub lf : ℕ
lf = 10

abbrev pub cr : ℕ
cr = 13

-- Puts a code unit in front of the first line.
abbrev pub cons_head : ℕ → List Str → List Str
cons_head c [] = (c ∷ []) ∷ []
cons_head c (l ∷ ls) = (c ∷ l) ∷ ls

-- `text.split("\n")`, never empty.
unfoldable pub split_nl : Str → List Str
split_nl [] = [] ∷ []
split_nl (c ∷ s) = if c == lf then [] ∷ split_nl s else cons_head c (split_nl s)

-- `lines.join("\n")`.
unfoldable pub join_nl : List Str → Str
join_nl [] = []
join_nl (l ∷ []) = l
join_nl (l ∷ m ∷ ms) = l ++ lf ∷ join_nl (m ∷ ms)

-- `text.endsWith("\n")`.
unfoldable pub ends_with_nl : Str → Bool
ends_with_nl [] = false
ends_with_nl (c ∷ []) = c == lf
ends_with_nl (c ∷ d ∷ s) = ends_with_nl (d ∷ s)

-- `lines.slice(0, -1)`.
unfoldable pub drop_last {ℓ} : {A : Type ℓ} → List A → List A
drop_last [] = []
drop_last (x ∷ []) = []
drop_last (x ∷ y ∷ xs) = x ∷ drop_last (y ∷ xs)

unfoldable pub split_lines : Str → List Str
split_lines [] = [] ∷ []
split_lines (c ∷ s) =
    if ends_with_nl (c ∷ s) then drop_last (split_nl (c ∷ s)) else split_nl (c ∷ s)

unfoldable pub vis_lines : Str → List Str
vis_lines [] = []
vis_lines (c ∷ s) = if ends_with_nl (c ∷ s) then drop_last (split_nl (c ∷ s)) else split_nl (c ∷ s)

-- The index of the first line with a character; -1 is `none`.
unfoldable pub first_non_empty_index : List Str → Option ℕ
first_non_empty_index [] = none
first_non_empty_index ([] ∷ ls) = elim (first_non_empty_index ls) [
  | none ↦ none
  | some i ↦ some (suc i)
]
first_non_empty_index ((c ∷ l) ∷ ls) = some 0

-- `line.replace(/\n/g, "\\n")`.
unfoldable pub escape_nl : Str → Str
escape_nl [] = []
escape_nl (c ∷ s) = if c == lf then b'\\' ∷ b'n' ∷ escape_nl s else c ∷ escape_nl s

unfoldable pub clip_line : Str → ℕ → Str
clip_line line max_len =
    let flat = escape_nl line in
    if ltb max_len (length flat) then take max_len flat ++ units "..." else flat

pub data Ending : Type 0 where
  crlf_end lf_end cr_end : Ending

-- `text.indexOf(c)` of one code unit; -1 is `none`.
unfoldable pub index_of_unit : ℕ → Str → Option ℕ
index_of_unit u [] = none
index_of_unit u (c ∷ s) =
    if c == u then some 0 else elim (index_of_unit u s) [ none ↦ none | some i ↦ some (suc i) ]

-- `text.indexOf("\r\n")`.
unfoldable pub index_of_crlf : Str → Option ℕ
index_of_crlf [] = none
index_of_crlf (c ∷ []) = none
index_of_crlf (c ∷ d ∷ s) =
    if (c == cr) && (d == lf)
    then some 0
    else elim (index_of_crlf (d ∷ s)) [ none ↦ none | some i ↦ some (suc i) ]

unfoldable pub detect_ending : Str → Ending
detect_ending content = elim (index_of_unit lf content) [
  | none ↦ elim (index_of_unit cr content) [ none ↦ lf_end | some _ ↦ cr_end ]
  | some lf_idx ↦ elim (index_of_crlf content) [
    | none ↦ lf_end
    | some crlf_idx ↦ if ltb crlf_idx lf_idx then crlf_end else lf_end
  ]
]

-- `text.replace(/\r\n/g, "\n")`.
unfoldable pub crlf_to_lf : Str → Str
crlf_to_lf [] = []
crlf_to_lf (c ∷ []) = c ∷ []
crlf_to_lf (c ∷ d ∷ s) = elim ((c == cr) && (d == lf)) [
  | true ↦ lf ∷ crlf_to_lf s
  | false ↦ c ∷ crlf_to_lf (d ∷ s)
]

-- `text.replace(/\r/g, "\n")`.
unfoldable pub cr_to_lf : Str → Str
cr_to_lf [] = []
cr_to_lf (c ∷ s) = (if c == cr then lf else c) ∷ cr_to_lf s

unfoldable pub to_lf : Str → Str
to_lf text = cr_to_lf (crlf_to_lf text)

-- `text.replace(/\n/g, "\r\n")`.
unfoldable pub lf_to_crlf : Str → Str
lf_to_crlf [] = []
lf_to_crlf (c ∷ s) = if c == lf then cr ∷ lf ∷ lf_to_crlf s else c ∷ lf_to_crlf s

-- `text.replace(/\n/g, "\r")`.
unfoldable pub lf_to_cr : Str → Str
lf_to_cr [] = []
lf_to_cr (c ∷ s) = (if c == lf then cr else c) ∷ lf_to_cr s

unfoldable pub restore_endings : Str → Ending → Str
restore_endings text crlf_end = lf_to_crlf text
restore_endings text cr_end = lf_to_cr text
restore_endings text lf_end = text

pub record Bommed : Type 0 where
  pub bom : Str
  pub text : Str

unfoldable pub strip_bom : Str → Bommed
strip_bom [] = record { bom = []; text = [] }
strip_bom (c ∷ s) =
    if c == 0xfeff then record { bom = c ∷ []; text = s } else record { bom = []; text = c ∷ s }
