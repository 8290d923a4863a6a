-- ===== src/ServedGuard/Openings.antt =====
-- How a line opens, and the served positions of an anchor (src/hashline/served-guard.ts).
use mathlib.Core.Path.{subst}
use dsh_better_edit.Prelude.{
  ℕ, zero, suc, ◌+◌, ◌≡◌, ◌≢◌, ◌↔◌, ◌⊎◌, refl, ap, sym, ◌∙◌, true, false, ◌||◌, ◌&&◌, Option, none,
  some, List, [], ◌∷◌, ◌++◌, Str, ◌==◌, get_elem?, arith, Bool-cases, Option-cases, inl, inr,
  Member, str_eq, str_eq_sound, str_eq-ne, str_eq_refl,
}
use dsh_better_edit.HashAssign.{hash_sep, matches_hash_re}
use dsh_better_edit.ServedGuard.{
  Shape, ServedAnchorEntry, shape_of, drop_marker, anchor_shape_from_line, entries_of, any_canon,
  canon_slot, was_served,
}

-- The line is the anchor, the separator and the tail, behind at most one diff marker.
abbrev pub IsOpening : Str → Str → Str → Type 0
IsOpening line anchor tail =
    (line ≡ anchor ++ hash_sep ∷ tail)
    ⊎ ((c : ℕ) × (Member c (b'+' ∷ b'-' ∷ 32 ∷ [])) × (line ≡ c ∷ anchor ++ hash_sep ∷ tail))

shape_of-some : (s : Str) (sh : Shape) → shape_of s ≡ some sh → s ≡ sh.anchor ++ hash_sep ∷ sh.tail
unfolding shape_of
shape_of-some [] sh e = cc
shape_of-some (a ∷ []) sh e = cc
shape_of-some (a ∷ b ∷ []) sh e = cc
shape_of-some (a ∷ b ∷ c ∷ []) sh e = cc
shape_of-some (a ∷ b ∷ c ∷ d ∷ s) sh e =
    elim (Bool-cases ((d == hash_sep) && matches_hash_re (a ∷ b ∷ c ∷ []))) [
      | inl shaped ↦
          (let same : some (record { anchor = a ∷ b ∷ c ∷ []; tail = s }) ≡ some sh =
              ground (arith, shaped, e) in
            let eq : record { anchor = a ∷ b ∷ c ∷ []; tail = s } ≡ sh = cc in
            let sep : d ≡ hash_sep = ground (arith, shaped) in
            ap (λ x. a ∷ b ∷ c ∷ x ∷ s) sep ∙ ap (λ (x : Shape). x.anchor ++ hash_sep ∷ x.tail) eq)
      | inr plain ↦ absurd (ground (arith, plain, e))
    ]

pub anchor_shape_from_line-IsOpening :
    (line : Str) (sh : Shape)
    → anchor_shape_from_line line ≡ some sh
    → IsOpening line sh.anchor sh.tail
unfolding anchor_shape_from_line
anchor_shape_from_line-IsOpening [] sh e = inl (shape_of-some [] sh e)
anchor_shape_from_line-IsOpening (c ∷ s) sh e =
    elim (Bool-cases ((c == b'+') || (c == b'-') || (c == 32))) [
      | inl marker ↦
          (let at : shape_of s ≡ some sh = ap shape_of (sym (dropped marker)) ∙ e in
            inr (c, is_marker marker, ap (λ t. c ∷ t) (shape_of-some s sh at)))
      | inr plain ↦ inl (shape_of-some (c ∷ s) sh (ap shape_of (sym (whole plain)) ∙ e))
    ]
  where
    dropped : ((c == b'+') || (c == b'-') || (c == 32)) ≡ true → drop_marker (c ∷ s) ≡ s
    dropped marker = rw marker refl

    whole : ((c == b'+') || (c == b'-') || (c == 32)) ≡ false → drop_marker (c ∷ s) ≡ c ∷ s
    whole plain = rw plain refl

    is_marker : ((c == b'+') || (c == b'-') || (c == 32)) ≡ true → Member c (b'+' ∷ b'-' ∷ 32 ∷ [])
    is_marker marker = ground (arith, marker)

-- A served position of the anchor with its canon.
abbrev pub IsServedAt : Str → List (Option Str) → List (Option Str) → ℕ → Str → Type 0
IsServedAt anchor served canons q c =
    (get_elem? served q ≡ some (some anchor)) × (get_elem? canons q ≡ some (some c))

canon_slot-some :
    (o : Option (Option Str)) (c : Str) → (canon_slot o ≡ some c) ↔ (o ≡ some (some c))
canon_slot-some none c = (λ e. cc, λ e. cc)
canon_slot-some (some none) c = (λ e. cc, λ e. cc)
canon_slot-some (some (some d)) c = (λ e. ap some e, λ e. ap canon_slot e)

-- A slot adds an entry when it holds the anchor and has a canon, and else nothing.
entries_of-step :
    (anchor h : Str) (served canons : List (Option Str)) (pos : ℕ)
    → ((c : Str) × (get_elem? canons pos ≡ some (some c))
        × (h ≡ anchor)
        × (entries_of anchor (some h ∷ served) canons pos
            ≡ record { served_line = suc pos; canon = c }
              ∷ entries_of anchor served canons (suc pos)))
      ⊎ ((entries_of anchor (some h ∷ served) canons pos
            ≡ entries_of anchor served canons (suc pos))
          × ((c : Str) → get_elem? canons pos ≡ some (some c) → h ≢ anchor))
unfolding entries_of
entries_of-step anchor h served canons pos =
    elim (Option-cases (canon_slot (get_elem? canons pos))) [
      | inl bare ↦ inr (
        rw (bare, entries_of) refl,
        λ c at. absurd (
            let there : canon_slot (get_elem? canons pos) ≡ some c =
              (canon_slot-some (get_elem? canons pos) c).1 at in
            cc),
      )
      | inr (c, recorded) ↦ elim (Bool-cases (str_eq h anchor)) [
        | inl same ↦ inl (
          c,
          (canon_slot-some (get_elem? canons pos) c).0 recorded,
          str_eq_sound h anchor same,
          rw (recorded, same, entries_of) refl,
        )
        | inr other ↦ inr (rw (recorded, other, entries_of) refl, λ d at. str_eq-ne h anchor other)
      ]
    ]

-- Each entry is a served position, counted from `pos`.
pub entries_of_sound :
    (anchor : Str) (served canons : List (Option Str)) (pos : ℕ) (e : ServedAnchorEntry)
    → Member e (entries_of anchor served canons pos)
    → (q : ℕ) × (e.served_line ≡ suc (pos + q))
      × (get_elem? served q ≡ some (some anchor))
      × (get_elem? canons (pos + q) ≡ some (some e.canon))
unfolding entries_of
entries_of_sound anchor [] canons pos e m = absurd m
entries_of_sound anchor (none ∷ served) canons pos e m =
    let (q, line, at, recorded) = entries_of_sound anchor served canons (suc pos) e m in
    (suc q, line ∙ omega arith, at, ap (get_elem? canons) (omega arith) ∙ recorded)
entries_of_sound anchor (some h ∷ served) canons pos e m =
    elim (entries_of-step anchor h served canons pos) [
      | inl (c, recorded, same, cons) ↦ elim (subst (Member e) cons m) [
        | inl here ↦ (
          0,
          ap (λ (t : ServedAnchorEntry). t.served_line) here ∙ omega arith,
          ap (λ t. some (some t)) same,
          ap (get_elem? canons) (omega arith)
              ∙ recorded
              ∙ ap (λ (t : ServedAnchorEntry). some (some t.canon)) (sym here),
        )
        | inr later ↦ further (entries_of_sound anchor served canons (suc pos) e later)
      ]
      | inr (rest, out) ↦
          further (entries_of_sound anchor served canons (suc pos) e (subst (Member e) rest m))
    ]
  where
    further :
        ((q : ℕ) × (e.served_line ≡ suc (suc pos + q))
          × (get_elem? served q ≡ some (some anchor))
          × (get_elem? canons (suc pos + q) ≡ some (some e.canon)))
        → (q : ℕ) × (e.served_line ≡ suc (pos + q))
          × (get_elem? (some h ∷ served) q ≡ some (some anchor))
          × (get_elem? canons (pos + q) ≡ some (some e.canon))
    further (q, line, at, recorded) =
        (suc q, line ∙ omega arith, at, ap (get_elem? canons) (omega arith) ∙ recorded)

-- Each served position with a canon has an entry.
pub entries_of_complete :
    (anchor : Str) (served canons : List (Option Str)) (pos q : ℕ) (c : Str)
    → get_elem? served q ≡ some (some anchor)
    → get_elem? canons (pos + q) ≡ some (some c)
    → (e : ServedAnchorEntry) × Member e (entries_of anchor served canons pos) × (e.canon ≡ c)
unfolding entries_of
entries_of_complete anchor [] canons pos q c at recorded = cc
entries_of_complete anchor (none ∷ served) canons pos zero c at recorded = cc
entries_of_complete anchor (none ∷ served) canons pos (suc q) c at recorded =
    entries_of_complete anchor served canons (suc pos) q c at
      (ap (get_elem? canons) (omega arith) ∙ recorded)
entries_of_complete anchor (some h ∷ served) canons pos zero c at recorded =
    let here : get_elem? canons pos ≡ some (some c) =
      ap (get_elem? canons) (omega arith) ∙ recorded in
    let held : h ≡ anchor = cc in
    elim (entries_of-step anchor h served canons pos) [
      | inl (d, found, same, cons) ↦
          (record { served_line = suc pos; canon = d }, rw cons (inl refl), cc)
      | inr (rest, out) ↦ absurd (out c here held)
    ]
entries_of_complete anchor (some h ∷ served) canons pos (suc q) c at recorded =
    let (e, m, same_canon) =
      entries_of_complete anchor served canons (suc pos) q c at
        (ap (get_elem? canons) (omega arith) ∙ recorded) in
    elim (entries_of-step anchor h served canons pos) [
      | inl (d, found, same, cons) ↦ (e, rw cons (inr m), same_canon)
      | inr (rest, out) ↦ (e, rw rest m, same_canon)
    ]

pub any_canon-none :
    (c : Str) (es : List ServedAnchorEntry) (e : ServedAnchorEntry)
    → any_canon c es ≡ false
    → Member e es
    → e.canon ≢ c
unfolding any_canon
any_canon-none c [] e h m = absurd m
any_canon-none c (x ∷ es) e h m = elim (Bool-cases (str_eq x.canon c)) [
  | inl same ↦ absurd (ground (arith, same, h))
  | inr other ↦ elim m [
    | inl here ↦
        λ eq. str_eq-ne x.canon c other (ap (λ (t : ServedAnchorEntry). t.canon) (sym here) ∙ eq)
    | inr later ↦ any_canon-none c es e (ground (arith, other, h)) later
  ]
]

pub was_served-get :
    (anchor : Str) (served : List (Option Str)) (q : ℕ)
    → was_served anchor served ≡ false
    → get_elem? served q ≢ some (some anchor)
unfolding was_served
was_served-get anchor [] q h = λ e. cc
was_served-get anchor (none ∷ served) zero h = λ e. cc
was_served-get anchor (none ∷ served) (suc q) h = was_served-get anchor served q h
was_served-get anchor (some g ∷ served) zero h = λ e.
    let same : g ≡ anchor = cc in
    let yes_eq : str_eq g anchor ≡ true = rw (same, str_eq_refl anchor) refl in
    absurd (ground (arith, yes_eq, h))
was_served-get anchor (some g ∷ served) (suc q) h =
    was_served-get anchor served q (elim (Bool-cases (str_eq g anchor)) [
      | inl same ↦ absurd (ground (arith, same, h))
      | inr other ↦ ground (arith, other, h)
    ])
