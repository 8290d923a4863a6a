-- ===== src/AnchorPipeline/Span/Changed.antt =====
-- `changedRange`: outside the range that it reports the two contents have the same lines.
use mathlib.Core.Path.{subst}
use dsh_better_edit.Prelude.{
  ℕ, zero, suc, ◌+◌, ◌-◌, ◌<◌, ◌≤◌, ◌≡◌, refl, sym, ap, ◌∙◌, ◌&&◌, some, List, [], ◌∷◌, Str, ltb,
  max, length, str_eq, str_eq_sound, take, drop, arith, Bool-cases, inl, inr,
}
use dsh_better_edit.AnchorPipeline.{line_at}
use dsh_better_edit.AnchorPipeline.Span.{
  lines_eq, ChangedRange, common_prefix, suffix_loop, changed_lines,
}
use dsh_better_edit.AnchorPipeline.Span.Offsets.{drop-line}

-- The lines before the first difference agree.
take-common_prefix :
    (ls ms : List Str) → take (common_prefix ls ms) ls ≡ take (common_prefix ls ms) ms
unfolding common_prefix
take-common_prefix [] [] = refl
take-common_prefix [] (m ∷ ms) = refl
take-common_prefix (l ∷ ls) [] = refl
take-common_prefix (l ∷ ls) (m ∷ ms) = elim (Bool-cases (str_eq l m)) [
  | inl same ↦
      (let head : l ≡ m = str_eq_sound l m same in
        rw same (
          ap (λ t. l ∷ t) (take-common_prefix ls ms)
          ∙ ap (λ t. t ∷ take (common_prefix ls ms) ms) head))
  | inr other ↦ rw other refl
]

-- From line `orig` of the one and line `res` of the other on, the lines agree.
record Agree (ls ms : List Str) (orig res : ℕ) : Type 0 where
  rest : drop orig ls ≡ drop res ms
  aligned : orig + length ms ≡ res + length ls
  inside : res ≤ length ms

Agree-before :
    (ls ms : List Str) (orig res : ℕ)
    → 0 < orig
    → 0 < res
    → line_at ls (orig - 1) ≡ line_at ms (res - 1)
    → Agree ls ms orig res
    → Agree ls ms (orig - 1) (res - 1)
Agree-before ls ms orig res p q same a =
    let u : suc (orig - 1) ≡ orig = omega arith in
    let v : suc (res - 1) ≡ res = omega arith in
    record {
      rest =
          drop-line ls (orig - 1) (omega (arith, a.aligned, a.inside))
          ∙ ap (λ n. line_at ls (orig - 1) ∷ drop n ls) u
          ∙ ap (λ t. line_at ls (orig - 1) ∷ t) a.rest
          ∙ ap (λ t. t ∷ drop res ms) same
          ∙ ap (λ n. line_at ms (res - 1) ∷ drop n ms) (sym v)
          ∙ sym (drop-line ms (res - 1) (omega (arith, a.inside)));
      aligned = omega (arith, a.aligned);
      inside = omega (arith, a.inside);
    }

suffix_loop-Agree :
    (fuel : ℕ) (ls ms : List Str) (first orig res : ℕ)
    → Agree ls ms orig res
    → (o : ℕ) × Agree ls ms o (suffix_loop fuel ls ms first orig res)
unfolding suffix_loop
suffix_loop-Agree zero ls ms first orig res a = (orig, a)
suffix_loop-Agree (suc fuel) ls ms first orig res a =
    elim (Bool-cases
      (ltb first orig && ltb first res && str_eq (line_at ls (orig - 1)) (line_at ms (res - 1)))) [
        | inl on ↦
            (let same : line_at ls (orig - 1) ≡ line_at ms (res - 1) =
                str_eq_sound (line_at ls (orig - 1)) (line_at ms (res - 1)) (ground (arith, on)) in
              let p : 0 < orig = ground (arith, on) in
              let q : 0 < res = ground (arith, on) in
              rw (on, suffix_loop)
                (suffix_loop-Agree fuel ls ms first (orig - 1) (res - 1)
                  (Agree-before ls ms orig res p q same a)))
        | inr stop ↦ rw (stop, suffix_loop) (orig, a)
      ]

drop_nil {ℓ} : {A : Type ℓ} (n : ℕ) → drop {A = A} n [] ≡ []
drop_nil zero = refl
drop_nil (suc n) = refl

drop-drop {ℓ} : {A : Type ℓ} (k n : ℕ) (xs : List A) → drop k (drop n xs) ≡ drop (n + k) xs
drop-drop k zero xs = ap (λ m. drop m xs) (omega arith)
drop-drop k (suc n) [] = drop_nil k ∙ sym (drop_nil (suc n + k))
drop-drop k (suc n) (x ∷ xs) =
    let same : suc (n + k) ≡ suc n + k = omega arith in
    drop-drop k n xs ∙ ap (λ m. drop m (x ∷ xs)) same

-- Outside the reported range the two lists of lines agree: before it line by line, and behind it up to
-- the shift by the difference of their lengths.
pub record AgreeOutside (ls ms : List Str) (c : ChangedRange) : Type 0 where
  pub before : take (c.first_changed_line - 1) ls ≡ take (c.first_changed_line - 1) ms
  pub ordered : c.first_changed_line ≤ c.last_changed_line
  pub from : ℕ
  pub shifted : from + length ms ≡ c.last_changed_line + length ls
  pub behind : drop from ls ≡ drop c.last_changed_line ms

drop-length {ℓ} : {A : Type ℓ} (xs : List A) → drop (length xs) xs ≡ []
drop-length [] = refl
drop-length (x ∷ xs) = drop-length xs

whole-Agree : (ls ms : List Str) → Agree ls ms (length ls) (length ms)
whole-Agree ls ms = record {
  rest = drop-length ls ∙ sym (drop-length ms);
  aligned = omega arith;
  inside = omega arith;
}

-- The range that two lists of lines are said to differ in.
abbrev range_of : List Str → List Str → ChangedRange
range_of ls ms = record {
  first_changed_line = common_prefix ls ms + 1;
  last_changed_line =
      max (common_prefix ls ms + 1)
        (suffix_loop (length ls) ls ms (common_prefix ls ms) (length ls) (length ms));
}

range_of-AgreeOutside : (ls ms : List Str) → AgreeOutside ls ms (range_of ls ms)
range_of-AgreeOutside ls ms =
    let cp : ℕ = common_prefix ls ms in
    let r : ℕ = suffix_loop (length ls) ls ms cp (length ls) (length ms) in
    let (o, a) =
      suffix_loop-Agree (length ls) ls ms cp (length ls) (length ms) (whole-Agree ls ms) in
    let last : ℕ = max (cp + 1) r in
    let back : cp + 1 - 1 ≡ cp = omega arith in
    let on : r + (last - r) ≡ last = omega arith in
    record {
      before = ap (λ n. take n ls) back ∙ take-common_prefix ls ms ∙ ap (λ n. take n ms) (sym back);
      ordered = omega arith;
      from = o + (last - r);
      shifted = omega (arith, a.aligned);
      behind =
          sym (drop-drop (last - r) o ls)
          ∙ ap (drop (last - r)) a.rest
          ∙ drop-drop (last - r) r ms
          ∙ ap (λ n. drop n ms) on;
    }

-- Where two lists of lines are said to differ in a range, they agree outside of it: before it line by
-- line, and behind it up to the shift by the difference of their lengths.
pub changed_lines-AgreeOutside :
    (ls ms : List Str) (c : ChangedRange) → changed_lines ls ms ≡ some c → AgreeOutside ls ms c
unfolding changed_lines
changed_lines-AgreeOutside ls ms c e = elim (Bool-cases (lines_eq ls ms)) [
  | inl same ↦ absurd (ground (arith, e, same))
  | inr other ↦
      (let found : some (range_of ls ms) ≡ some c = rw other at e in
        let q : range_of ls ms ≡ c = cc in
        subst (λ t. AgreeOutside ls ms t) q (range_of-AgreeOutside ls ms))
]
