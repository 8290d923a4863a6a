-- ===== src/Text/Endings.antt =====
-- Line endings are restored without loss (src/edit-diff.ts).
use dsh_better_edit.Prelude.{
  ℕ, suc, ◌≡◌, ◌≢◌, refl, none, some, [], ◌∷◌, Str, arith, Option-cases, inl, inr,
}
use dsh_better_edit.Text.{
  lf, cr, Ending, crlf_end, lf_end, cr_end, index_of_unit, index_of_crlf, detect_ending, crlf_to_lf,
  cr_to_lf, to_lf, lf_to_crlf, lf_to_cr, restore_endings,
}

-- No code unit is a carriage return.
abbrev pub IsLf : Str → Type 0
IsLf [] = Unit
IsLf (c ∷ s) = (c ≢ cr) × IsLf s

pub cr_to_lf_of_IsLf : (s : Str) → IsLf s → cr_to_lf s ≡ s
unfolding cr_to_lf
cr_to_lf_of_IsLf [] h = refl
cr_to_lf_of_IsLf (c ∷ s) (p, h) = ground (arith, cr_to_lf_of_IsLf s h)

pub crlf_to_lf_of_IsLf : (s : Str) → IsLf s → crlf_to_lf s ≡ s
unfolding crlf_to_lf
crlf_to_lf_of_IsLf [] h = refl
crlf_to_lf_of_IsLf (c ∷ []) h = refl
crlf_to_lf_of_IsLf (c ∷ d ∷ s) (p, h) = ground (arith, crlf_to_lf_of_IsLf (d ∷ s) h)

crlf_to_lf-cons : (c : ℕ) (s : Str) → c ≢ cr → crlf_to_lf (c ∷ s) ≡ c ∷ crlf_to_lf s
unfolding crlf_to_lf
crlf_to_lf-cons c [] h = refl
crlf_to_lf-cons c (d ∷ s) h = ground arith

crlf_to_lf-pair : (s : Str) → crlf_to_lf (cr ∷ lf ∷ s) ≡ lf ∷ crlf_to_lf s
unfolding crlf_to_lf
crlf_to_lf-pair s = refl

crlf_to_lf-lf_to_crlf : (s : Str) → IsLf s → crlf_to_lf (lf_to_crlf s) ≡ s
unfolding lf_to_crlf
crlf_to_lf-lf_to_crlf [] h = unfold crlf_to_lf in refl
crlf_to_lf-lf_to_crlf (c ∷ s) (p, h) = ground (
  arith,
  crlf_to_lf-pair (lf_to_crlf s),
  crlf_to_lf-cons c (lf_to_crlf s) p,
  crlf_to_lf-lf_to_crlf s h,
)

-- Without a newline there is no pair to fold.
crlf_to_lf-lf_to_cr : (s : Str) → crlf_to_lf (lf_to_cr s) ≡ lf_to_cr s
unfolding lf_to_cr crlf_to_lf
crlf_to_lf-lf_to_cr [] = refl
crlf_to_lf-lf_to_cr (c ∷ []) = refl
crlf_to_lf-lf_to_cr (c ∷ d ∷ s) = ground (arith, crlf_to_lf-lf_to_cr (d ∷ s))

cr_to_lf-lf_to_cr : (s : Str) → IsLf s → cr_to_lf (lf_to_cr s) ≡ s
unfolding lf_to_cr cr_to_lf
cr_to_lf-lf_to_cr [] h = refl
cr_to_lf-lf_to_cr (c ∷ s) (p, h) = ground (arith, cr_to_lf-lf_to_cr s h)

-- A text without carriage returns comes back from any ending it is written with.
pub to_lf-restore_endings : (s : Str) (e : Ending) → IsLf s → to_lf (restore_endings s e) ≡ s
unfolding to_lf restore_endings
to_lf-restore_endings s crlf_end h = rw (crlf_to_lf-lf_to_crlf s h) (cr_to_lf_of_IsLf s h)
to_lf-restore_endings s lf_end h = rw (crlf_to_lf_of_IsLf s h) (cr_to_lf_of_IsLf s h)
to_lf-restore_endings s cr_end h = rw (crlf_to_lf-lf_to_cr s) (cr_to_lf-lf_to_cr s h)

cr_to_lf-IsLf : (s : Str) → IsLf (cr_to_lf s)
unfolding cr_to_lf
cr_to_lf-IsLf [] = tt
cr_to_lf-IsLf (c ∷ s) = (ground arith, cr_to_lf-IsLf s)

-- A text whose endings were normalised has no carriage return.
pub to_lf-IsLf : (s : Str) → IsLf (to_lf s)
unfolding to_lf
to_lf-IsLf s = cr_to_lf-IsLf (crlf_to_lf s)

index_of_crlf_of_IsLf : (s : Str) → IsLf s → index_of_crlf s ≡ none
unfolding index_of_crlf
index_of_crlf_of_IsLf [] h = refl
index_of_crlf_of_IsLf (c ∷ []) h = refl
index_of_crlf_of_IsLf (c ∷ d ∷ s) (p, h) = ground (arith, index_of_crlf_of_IsLf (d ∷ s) h)

index_of_lf-lf_to_cr : (s : Str) → index_of_unit lf (lf_to_cr s) ≡ none
unfolding index_of_unit lf_to_cr
index_of_lf-lf_to_cr [] = refl
index_of_lf-lf_to_cr (c ∷ s) = ground (arith, index_of_lf-lf_to_cr s)

index_of_cr-lf_to_cr :
    (s : Str) (i : ℕ)
    → IsLf s
    → index_of_unit lf s ≡ some i
    → index_of_unit cr (lf_to_cr s) ≡ some i
unfolding index_of_unit lf_to_cr
index_of_cr-lf_to_cr [] i h e = cc
index_of_cr-lf_to_cr (c ∷ s) i (p, h) e = elim (Option-cases (index_of_unit lf s)) [
  | inl missing ↦ ground arith
  | inr (j, found) ↦ ground (arith, index_of_cr-lf_to_cr s j h found)
]

index_of_lf-lf_to_crlf :
    (s : Str) (i : ℕ) → index_of_unit lf s ≡ some i → index_of_unit lf (lf_to_crlf s) ≡ some (suc i)
unfolding index_of_unit lf_to_crlf
index_of_lf-lf_to_crlf [] i e = cc
index_of_lf-lf_to_crlf (c ∷ s) i e = elim (Option-cases (index_of_unit lf s)) [
  | inl missing ↦ ground arith
  | inr (j, found) ↦ ground (arith, index_of_lf-lf_to_crlf s j found)
]

index_of_crlf-cons :
    (c : ℕ) (s : Str) (i : ℕ)
    → c ≢ cr
    → index_of_crlf s ≡ some i
    → index_of_crlf (c ∷ s) ≡ some (suc i)
unfolding index_of_crlf
index_of_crlf-cons c [] i p e = cc
index_of_crlf-cons c (d ∷ s) i p e = ground arith

index_of_crlf-pair : (s : Str) → index_of_crlf (cr ∷ lf ∷ s) ≡ some 0
unfolding index_of_crlf
index_of_crlf-pair s = refl

index_of_crlf-lf_to_crlf :
    (s : Str) (i : ℕ) → IsLf s → index_of_unit lf s ≡ some i → index_of_crlf (lf_to_crlf s) ≡ some i
unfolding index_of_unit lf_to_crlf
index_of_crlf-lf_to_crlf [] i h e = cc
index_of_crlf-lf_to_crlf (c ∷ s) i (p, h) e = elim (Option-cases (index_of_unit lf s)) [
  | inl missing ↦ ground (arith, index_of_crlf-pair (lf_to_crlf s))
  | inr (j, found) ↦ ground (
    arith,
    index_of_crlf-lf_to_crlf s j h found,
    index_of_crlf-pair (lf_to_crlf s),
    index_of_crlf-cons c (lf_to_crlf s) j p,
  )
]

-- The ending that a text without carriage returns and with a newline was written with is detected when
-- it is read again.
pub detect_ending-restore_endings :
    (s : Str) (e : Ending) (i : ℕ)
    → IsLf s
    → index_of_unit lf s ≡ some i
    → detect_ending (restore_endings s e) ≡ e
unfolding detect_ending restore_endings
detect_ending-restore_endings s crlf_end i h f =
    ground (arith, index_of_lf-lf_to_crlf s i f, index_of_crlf-lf_to_crlf s i h f)
detect_ending-restore_endings s lf_end i h f = ground (arith, f, index_of_crlf_of_IsLf s h)
detect_ending-restore_endings s cr_end i h f =
    ground (arith, index_of_lf-lf_to_cr s, index_of_cr-lf_to_cr s i h f)
