-- ===== src/HashAssign/Codec.antt =====
-- `idxToHash` and `hashToIndex` are inverse to one another on the anchor space.
use dsh_better_edit.Prelude.{
  ℕ, zero, suc, ◌+◌, ◌*◌, ◌/◌, ◌%◌, ◌<◌, ◌≡◌, refl, sym, ap, ◌∙◌, Bool, true, false, ◌&&◌, none,
  some, [], ◌∷◌, Str, ◌==◌, arith, get_elem?, length, Option-cases, inl, inr,
}
use dsh_better_edit.HashAssign.{
  alph, alph_length, hash_space, alph_at, idx_loop, idx_to_hash, position_of, index_loop,
  hash_to_index, is_alph, matches_hash_re,
}

-- A position found holds the code unit that was looked for.
pub position_of-get : (u : ℕ) (s : Str) (i : ℕ) → position_of u s ≡ some i → get_elem? s i ≡ some u
unfolding position_of
position_of-get u [] i h = cc
position_of-get u (c ∷ s) i h = elim (Option-cases (position_of u s)) [
  | inl missing ↦ ground arith
  | inr (j, found) ↦ ground (arith, position_of-get u s j found)
]

pub position_of-lt : (u : ℕ) (s : Str) (i : ℕ) → position_of u s ≡ some i → i < length s
unfolding position_of
position_of-lt u [] i h = cc
position_of-lt u (c ∷ s) i h = elim (Option-cases (position_of u s)) [
  | inl missing ↦ ground arith
  | inr (j, found) ↦ ground (arith, position_of-lt u s j found)
]

digit_at : ℕ → Bool
digit_at k = elim (get_elem? alph k) [
  | none ↦ false
  | some c ↦ elim (position_of c alph) [ none ↦ false | some j ↦ j == k ]
]

-- The first `count` places of the alphabet are where their code units are first found.
first_digits : ℕ → Bool
first_digits zero = true
first_digits (suc count) = first_digits count && digit_at count

first_digits-digit_at : (count k : ℕ) → k < count → first_digits count ≡ true → digit_at k ≡ true
unfolding first_digits
first_digits-digit_at zero k inside all = absurd (omega arith)
first_digits-digit_at (suc count) k inside all = ground (arith, first_digits-digit_at count k)

digit_table : first_digits 62 ≡ true
unfolding first_digits digit_at position_of alph
digit_table = refl

-- The alphabet repeats no code unit, and has 62.
pub alph_digit :
    (k : ℕ)
    → k < alph_length
    → (c : ℕ) × (get_elem? alph k ≡ some c) × (position_of c alph ≡ some k)
unfolding digit_at
alph_digit k h =
    let fits : digit_at k ≡ true = first_digits-digit_at 62 k h digit_table in
    elim (Option-cases (get_elem? alph k)) [
      | inl missing ↦ absurd (ground arith)
      | inr (c, there) ↦ (
        c,
        there,
        elim (Option-cases (position_of c alph)) [
          | inl missing ↦ ground arith
          | inr (j, found) ↦ ground arith
        ],
      )
    ]

length-alph : length alph ≡ alph_length
unfolding alph
length-alph = refl

-- A code unit of the alphabet is the digit at its position.
pub position_of-alph_at :
    (c k : ℕ) → position_of c alph ≡ some k → (alph_at k ≡ c ∷ []) × (k < alph_length)
unfolding alph_at
position_of-alph_at c k h = (
  ground (arith, position_of-get c alph k h),
  omega (arith, position_of-lt c alph k h, length-alph),
)

pub alph_at-position_of :
    (k : ℕ) → k < alph_length → (c : ℕ) × (alph_at k ≡ c ∷ []) × (position_of c alph ≡ some k)
unfolding alph_at
alph_at-position_of k h =
    let d : (c : ℕ) × (get_elem? alph k ≡ some c) × (position_of c alph ≡ some k) =
      alph_digit k h in
    (d.0, ground (arith, d.1), d.2)

-- The index with three given digits, highest first.
abbrev pub digits_of : ℕ → ℕ → ℕ → ℕ
digits_of a b c = (a * alph_length + b) * alph_length + c

hash_to_index_digits :
    (a b c i j k : ℕ)
    → position_of a alph ≡ some i
    → position_of b alph ≡ some j
    → position_of c alph ≡ some k
    → hash_to_index (a ∷ b ∷ c ∷ []) ≡ some (digits_of i j k)
unfolding hash_to_index index_loop
hash_to_index_digits a b c i j k p q r = ground (arith, p, q, r)

idx_to_hash_digits :
    (a b c i j k : ℕ)
    → alph_at i ≡ a ∷ []
    → alph_at j ≡ b ∷ []
    → alph_at k ≡ c ∷ []
    → i < alph_length
    → j < alph_length
    → k < alph_length
    → idx_to_hash (digits_of i j k) ≡ a ∷ b ∷ c ∷ []
unfolding idx_to_hash idx_loop
idx_to_hash_digits a b c i j k p q r hi hj hk =
    let low : digits_of i j k % 62 ≡ k = omega arith in
    let mid : digits_of i j k / 62 % 62 ≡ j = omega arith in
    let high : digits_of i j k / 62 / 62 % 62 ≡ i = omega arith in rw (low, mid, high, p, q, r) refl

-- An index of the anchor space is its three digits, each with its code unit.
record Digits (n : ℕ) : Type 0 where
  a : ℕ
  b : ℕ
  c : ℕ
  i : ℕ
  j : ℕ
  k : ℕ
  whole : digits_of i j k ≡ n
  first : (alph_at i ≡ a ∷ []) × (position_of a alph ≡ some i) × (i < alph_length)
  second : (alph_at j ≡ b ∷ []) × (position_of b alph ≡ some j) × (j < alph_length)
  third : (alph_at k ≡ c ∷ []) × (position_of c alph ≡ some k) × (k < alph_length)

split-Digits : (n : ℕ) → n < hash_space → Digits n
split-Digits n h =
    let i : ℕ = n / 62 / 62 in
    let j : ℕ = n / 62 % 62 in
    let k : ℕ = n % 62 in
    let bi : i < alph_length = omega arith in
    let bj : j < alph_length = omega arith in
    let bk : k < alph_length = omega arith in
    let p : (c : ℕ) × (alph_at i ≡ c ∷ []) × (position_of c alph ≡ some i) =
      alph_at-position_of i bi in
    let q : (c : ℕ) × (alph_at j ≡ c ∷ []) × (position_of c alph ≡ some j) =
      alph_at-position_of j bj in
    let r : (c : ℕ) × (alph_at k ≡ c ∷ []) × (position_of c alph ≡ some k) =
      alph_at-position_of k bk in
    record {
      a = p.0;
      b = q.0;
      c = r.0;
      i = i;
      j = j;
      k = k;
      whole = omega arith;
      first = (p.1, p.2, bi);
      second = (q.1, q.2, bj);
      third = (r.1, r.2, bk);
    }

idx_to_hash-Digits : (n : ℕ) (d : Digits n) → idx_to_hash n ≡ d.a ∷ d.b ∷ d.c ∷ []
idx_to_hash-Digits n d =
    ap idx_to_hash (sym d.whole)
    ∙ idx_to_hash_digits d.a d.b d.c d.i d.j d.k d.first.0 d.second.0 d.third.0 d.first.2 d.second.2
        d.third.2

-- Every index of the anchor space comes back from its anchor.
pub hash_to_index-idx_to_hash : (n : ℕ) → n < hash_space → hash_to_index (idx_to_hash n) ≡ some n
hash_to_index-idx_to_hash n h =
    let d : Digits n = split-Digits n h in
    ap hash_to_index (idx_to_hash-Digits n d)
    ∙ hash_to_index_digits d.a d.b d.c d.i d.j d.k d.first.1 d.second.1 d.third.1
    ∙ ap some d.whole

pub idx_to_hash-matches : (n : ℕ) → n < hash_space → matches_hash_re (idx_to_hash n) ≡ true
unfolding matches_hash_re is_alph
idx_to_hash-matches n h =
    let d : Digits n = split-Digits n h in
    rw (idx_to_hash-Digits n d) (ground (arith, d.first.1, d.second.1, d.third.1))

is_alph-position : (c : ℕ) → is_alph c ≡ true → (i : ℕ) × (position_of c alph ≡ some i)
unfolding is_alph
is_alph-position c h = elim (Option-cases (position_of c alph)) [
  | inl missing ↦ absurd (ground arith)
  | inr found ↦ found
]

-- A string with the form of an anchor has an index, which lies in the anchor space, and comes back from
-- it.
pub idx_to_hash-hash_to_index :
    (s : Str)
    → matches_hash_re s ≡ true
    → (n : ℕ) × (hash_to_index s ≡ some n) × (n < hash_space) × (idx_to_hash n ≡ s)
unfolding matches_hash_re
idx_to_hash-hash_to_index (a ∷ b ∷ c ∷ []) h =
    let (i, p) = is_alph-position a (ground arith) in
    let (j, q) = is_alph-position b (ground arith) in
    let (k, r) = is_alph-position c (ground arith) in
    let (pa, bi) = position_of-alph_at a i p in
    let (qa, bj) = position_of-alph_at b j q in
    let (ra, bk) = position_of-alph_at c k r in
    (
      digits_of i j k,
      hash_to_index_digits a b c i j k p q r,
      omega arith,
      idx_to_hash_digits a b c i j k pa qa ra bi bj bk,
    )
idx_to_hash-hash_to_index s h = cc

-- Different indices have different anchors.
pub idx_to_hash-injective :
    (m n : ℕ) → m < hash_space → n < hash_space → idx_to_hash m ≡ idx_to_hash n → m ≡ n
idx_to_hash-injective m n p q e =
    ground (arith, hash_to_index-idx_to_hash m p, hash_to_index-idx_to_hash n q, ap hash_to_index e)
