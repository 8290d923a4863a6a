-- ===== src/Pairing/Pairs.antt =====
-- Pins that join lines with the same key: the candidate pins, the pairs of a leaf and the zip of a run.
use dsh_better_edit.Prelude.{
  ℕ, suc, ◌+◌, ◌-◌, ◌<◌, ◌≤◌, ◌≡◌, refl, ap, sym, ◌∙◌, Bool, true, false, ◌&&◌, Option, none, some,
  List, [], ◌∷◌, Str, ◌==◌, if◌then◌else◌, str_eq, str_eq_sound, Bool-cases, inl, inr, get_or,
  get_or-take, get_or-drop, length, length-take, length-drop, drop, map, All, arith,
}
use dsh_better_edit.Pairing.Pins.{
  AnchorPin, interval, count_key, last_position, pin_of, pins_from, find_unique_pins,
}
use dsh_better_edit.Pairing.Lcs.{
  lcs_of, suffix_table, shift_pin, compute_lcs_paths, at, count_table,
}
use dsh_better_edit.Pairing.Lcs.Matching.{Embeds, trace-IsLongest}
use dsh_better_edit.Pairing.Align.{identical, zip_pins}

-- The pin joins a line of the keys `ps`, the first of which has the number `p`, to a line of `cs`.
abbrev pub Joins : ℕ → List Str → ℕ → List Str → AnchorPin → Type 0
Joins p ps c cs pin =
    (p ≤ pin.prev_line)
    × (pin.prev_line < p + length ps)
    × (c ≤ pin.curr_line)
    × (pin.curr_line < c + length cs)
    × (get_or ps (pin.prev_line - p) [] ≡ get_or cs (pin.curr_line - c) [])

pub All-imp {ℓ κ μ} :
    {A : Type ℓ} (P : A → Type κ) (Q : A → Type μ) (xs : List A)
    → ((x : A) → P x → Q x)
    → All P xs
    → All Q xs
All-imp P Q [] f h = tt
All-imp P Q (x ∷ xs) f (p, h) = (f x p, All-imp P Q xs f h)

last_position-found :
    (key : Str) (c : ℕ) (ks : List Str) (q : ℕ)
    → last_position key c ks ≡ some q
    → (c ≤ q) × (q < c + length ks) × (get_or ks (q - c) [] ≡ key)
unfolding last_position
last_position-found key c [] q e = absurd (none-ne-some e)
  where
    none-ne-some : none ≡ some q → ⊥
    none-ne-some h = cc
last_position-found key c (k ∷ ks) q e =
    found (λ later. last_position-found key (suc c) ks later) (last_position key (suc c) ks) refl e
  where
    here :
        (b : Bool) → str_eq k key ≡ b → (if b then some c else none) ≡ some q → (c ≡ q) × (k ≡ key)
    here true f g = (cc, str_eq_sound k key f)
    here false f g = cc

    shifted : (n : ℕ) → suc c ≤ n → n - c ≡ suc (n - suc c)
    shifted n h = omega arith

    zero_apart : c ≡ q → q - c ≡ 0
    zero_apart h = omega arith

    found :
        ((later : ℕ)
          → last_position key (suc c) ks ≡ some later
          → (suc c ≤ later) × (later < suc c + length ks) × (get_or ks (later - suc c) [] ≡ key))
        → (o : Option ℕ) → last_position key (suc c) ks ≡ o
        → (elim o [ some later ↦ some later | none ↦ (if str_eq k key then some c else none) ])
          ≡ some q
        → (c ≤ q) × (q < c + suc (length ks)) × (get_or (k ∷ ks) (q - c) [] ≡ key)
    found ih none f g =
        let h = here (str_eq k key) refl g in
        (omega arith, omega arith, ap (λ n. get_or (k ∷ ks) n []) (zero_apart h.0) ∙ h.1)
    found ih (some later) f g =
        let h = ih q (f ∙ g) in
        (omega arith, omega arith, ap (λ n. get_or (k ∷ ks) n []) (shifted q h.0) ∙ h.2)

sub_self : (n : ℕ) → n - n ≡ 0
sub_self n = omega arith

-- One key more in front of the old keys.
Joins-cons_prev :
    (p : ℕ) (key : Str) (ps : List Str) (c : ℕ) (cs : List Str) (pin : AnchorPin)
    → Joins (suc p) ps c cs pin
    → Joins p (key ∷ ps) c cs pin
Joins-cons_prev p key ps c cs pin (a, b, d, e, same) = (
  omega arith,
  omega arith,
  d,
  e,
  ap (λ k. get_or (key ∷ ps) k []) (shifted pin.prev_line a) ∙ same,
)
  where
    shifted : (n : ℕ) → suc p ≤ n → n - p ≡ suc (n - suc p)
    shifted n h = omega arith

-- One key more in front of both lists.
Joins-cons_both :
    (p : ℕ) (key : Str) (ps : List Str) (c : ℕ) (key' : Str) (cs : List Str) (pin : AnchorPin)
    → Joins (suc p) ps (suc c) cs pin
    → Joins p (key ∷ ps) c (key' ∷ cs) pin
Joins-cons_both p key ps c key' cs pin (a, b, d, e, same) = (
  omega arith,
  omega arith,
  omega arith,
  omega arith,
  ap (λ k. get_or (key ∷ ps) k []) (shifted p pin.prev_line a)
      ∙ same
      ∙ ap (λ k. get_or (key' ∷ cs) k []) (sym (shifted c pin.curr_line d)),
)
  where
    shifted : (m n : ℕ) → suc m ≤ n → n - m ≡ suc (n - suc m)
    shifted m n h = omega arith

-- Every candidate pin joins lines with the same key.
pins_from-All_join :
    (prev_keys cs : List Str) (c p : ℕ) (ks : List Str)
    → All (Joins p ks c cs) (pins_from prev_keys cs c p ks)
unfolding pins_from
pins_from-All_join prev_keys cs c p [] = tt
pins_from-All_join prev_keys cs c p (key ∷ ks) =
    added (pins_from prev_keys cs c (suc p) ks)
      ((count_key key prev_keys == 1) && (count_key key cs == 1)) (last_position key c cs) refl
      (All-imp (Joins (suc p) ks c cs) (Joins p (key ∷ ks) c cs)
        (pins_from prev_keys cs c (suc p) ks) (Joins-cons_prev p key ks c cs)
        (pins_from-All_join prev_keys cs c (suc p) ks))
  where
    added :
        (rest : List AnchorPin) (once : Bool) (position : Option ℕ)
        → last_position key c cs ≡ position
        → All (Joins p (key ∷ ks) c cs) rest
        → All (Joins p (key ∷ ks) c cs) (pin_of p once position rest)
    added rest once none e h = h
    added rest false (some q) e h = h
    added rest true (some q) e h =
        let (a, b, same) = last_position-found key c cs q e in
        (
          (
            omega arith,
            omega arith,
            a,
            b,
            ap (λ k. get_or (key ∷ ks) k []) (sub_self p) ∙ sym same,
          ),
          h,
        )

-- The zip of two lists with the same keys.
pub zip_pins-All_join :
    (p c : ℕ) (ps cs : List Str)
    → identical ps cs ≡ true
    → All (Joins p ps c cs) (zip_pins (length ps) p c)
unfolding identical zip_pins
zip_pins-All_join p c [] cs h = tt
zip_pins-All_join p c (k ∷ ps) [] h = cc
zip_pins-All_join p c (k ∷ ps) (l ∷ cs) h = (
  (
    omega arith,
    omega arith,
    omega arith,
    omega arith,
    ap (λ n. get_or (k ∷ ps) n []) (sub_self p)
        ∙ str_eq_sound k l (ground arith)
        ∙ ap (λ n. get_or (l ∷ cs) n []) (sym (sub_self c)),
  ),
  All-imp (Joins (suc p) ps (suc c) cs) (Joins p (k ∷ ps) c (l ∷ cs))
      (zip_pins (length ps) (suc p) (suc c)) (Joins-cons_both p k ps c l cs)
      (zip_pins-All_join (suc p) (suc c) ps cs (ground arith)),
)

-- The pairs of a matching.
Embeds-All_join :
    (ps cs : List Str) (i j p c : ℕ) (ms : List AnchorPin)
    → Embeds ps cs i j ms
    → All (Joins p ps c cs) (map (shift_pin p c) ms)
Embeds-All_join ps cs i j p c [] e = tt
Embeds-All_join ps cs i j p c (m ∷ ms) (a, b, d, f, same, rest) = (
  (
    omega arith,
    omega arith,
    omega arith,
    omega arith,
    ap (λ k. get_or ps k []) (back p m.prev_line)
        ∙ same
        ∙ ap (λ k. get_or cs k []) (sym (back c m.curr_line)),
  ),
  Embeds-All_join ps cs (suc m.prev_line) (suc m.curr_line) p c ms rest,
)
  where
    back : (a b : ℕ) → a + b - a ≡ b
    back a b = omega arith

-- The pairs of a leaf's alignment.
pub compute_lcs_paths-All_join :
    (prev_lines curr_lines : List Str) (ps pe cs ce : ℕ)
    → All
        (Joins ps (interval prev_lines ps pe) cs (interval curr_lines cs ce))
        (compute_lcs_paths prev_lines curr_lines ps pe cs ce).pairs
unfolding compute_lcs_paths
compute_lcs_paths-All_join prev_lines curr_lines ps pe cs ce =
    Embeds-All_join (interval prev_lines ps pe) (interval curr_lines cs ce) 0 0 ps cs
      (lcs_of (interval prev_lines ps pe) (interval curr_lines cs ce)).pairs
      (embedded (interval prev_lines ps pe) (interval curr_lines cs ce))
  where
    embedded : (xs ys : List Str) → Embeds xs ys 0 0 (lcs_of xs ys).pairs
    embedded xs ys = elim (Bool-cases (at (count_table xs ys (suffix_table xs ys)) 0 0 == 1)) [
      | inl one ↦
          unfold lcs_of in
          rw one (trace-IsLongest xs ys (length xs + length ys) 0 0 (omega arith)).0
      | inr other ↦ unfold lcs_of in rw other tt
    ]

pub length-interval :
    (lines : List Str) (first last : ℕ)
    → 1 ≤ first
    → last ≤ length lines
    → length (interval lines first last) ≡ last + 1 - first
length-interval lines first last h k =
    omega (
      arith,
      length-take (last + 1 - first) (drop (first - 1) lines),
      length-drop (first - 1) lines,
    )

interval-read :
    (lines : List Str) (first last n : ℕ)
    → 1 ≤ first
    → first ≤ n
    → n ≤ last
    → get_or (interval lines first last) (n - first) [] ≡ get_or lines (n - 1) []
interval-read lines first last n h k l =
    get_or-take (last + 1 - first) (drop (first - 1) lines) (n - first) [] (omega arith)
    ∙ get_or-drop (first - 1) lines (n - first) []
    ∙ ap (λ m. get_or lines m []) (moved first n h k)
  where
    moved : (a b : ℕ) → 1 ≤ a → a ≤ b → a - 1 + (b - a) ≡ b - 1
    moved a b p q = omega arith

-- The pin joins two lines of the files with the same key.
abbrev pub IsPair : List Str → List Str → AnchorPin → Type 0
IsPair prev_lines curr_lines pin =
    (1 ≤ pin.prev_line)
    × (pin.prev_line ≤ length prev_lines)
    × (1 ≤ pin.curr_line)
    × (pin.curr_line ≤ length curr_lines)
    × (get_or prev_lines (pin.prev_line - 1) [] ≡ get_or curr_lines (pin.curr_line - 1) [])

-- The pin lies in the two intervals.
abbrev pub LiesIn : ℕ → ℕ → ℕ → ℕ → AnchorPin → Type 0
LiesIn ps pe cs ce pin =
    (ps ≤ pin.prev_line) × (pin.prev_line ≤ pe) × (cs ≤ pin.curr_line) × (pin.curr_line ≤ ce)

module _ (prev_lines curr_lines : List Str) (ps pe cs ce : ℕ) (ps_pos : 1 ≤ ps)
    (pe_le : pe ≤ length prev_lines) (cs_pos : 1 ≤ cs) (ce_le : ce ≤ length curr_lines) where
  abbrev pub IsPairIn : AnchorPin → Type 0
  IsPairIn pin = IsPair prev_lines curr_lines pin × LiesIn ps pe cs ce pin

  -- A pin that joins lines of the intervals is a pair in them.
  pub Joins-IsPairIn :
      (pin : AnchorPin)
      → Joins ps (interval prev_lines ps pe) cs (interval curr_lines cs ce) pin
      → IsPairIn pin
  Joins-IsPairIn pin (a, b, c, d, same) =
      let lp : length (interval prev_lines ps pe) ≡ pe + 1 - ps =
        length-interval prev_lines ps pe ps_pos pe_le in
      let lc : length (interval curr_lines cs ce) ≡ ce + 1 - cs =
        length-interval curr_lines cs ce cs_pos ce_le in
      (
        (
          omega arith,
          omega arith,
          omega arith,
          omega arith,
          sym (interval-read prev_lines ps pe pin.prev_line ps_pos a (omega arith))
              ∙ same
              ∙ interval-read curr_lines cs ce pin.curr_line cs_pos c (omega arith),
        ),
        (a, omega arith, c, omega arith),
      )

  pub find_unique_pins-All_pair : All IsPairIn (find_unique_pins prev_lines curr_lines ps pe cs ce)
  unfolding find_unique_pins
  find_unique_pins-All_pair =
      All-imp (Joins ps (interval prev_lines ps pe) cs (interval curr_lines cs ce)) IsPairIn
        (pins_from (interval prev_lines ps pe) (interval curr_lines cs ce) cs ps
          (interval prev_lines ps pe))
        Joins-IsPairIn
        (pins_from-All_join (interval prev_lines ps pe) (interval curr_lines cs ce) cs ps
          (interval prev_lines ps pe))
