-- ===== src/HashAssign/Fresh.antt =====
-- `lineHashesPure`: every line gets an anchor of its own, none of them reserved, as long as the anchor
-- space lasts.
use dsh_better_edit.Prelude.{
  ℕ, suc, ◌+◌, ◌<◌, ◌≤◌, ◌≡◌, refl, sym, ap, ◌∙◌, true, false, Option, some, List, [], ◌∷◌, Str,
  arith, Bool-cases, Option-cases, inl, inr, length, has, All, NotIn, Distinct, str_eq,
  str_eq_sound,
}
use dsh_better_edit.Text.{split_lines}
use dsh_better_edit.HashAssign.{
  Bitset, hash_space, get_bit, set_bit, next_zero_bit, idx_to_hash, hash_to_index, matches_hash_re,
  mark_hash_used, mark_all, empty_bits, Pool, Assigned, assign_hash, assign_all, base_index,
  allocated, line_hashes_pure,
}
use dsh_better_edit.HashAssign.Codec.{
  hash_to_index-idx_to_hash, idx_to_hash-matches, idx_to_hash-hash_to_index,
}
use dsh_better_edit.HashAssign.Bits.{get_bit-set_bit_self, set_bit-keeps}
use dsh_better_edit.HashAssign.Probe.{next_zero_bit_sound, next_zero_bit-none}
use dsh_better_edit.HashAssign.Capacity.{
  free, free-empty_bits, free-set_bit, free-pos, free-mark_all,
}

-- What one allocation did: a clear slot was taken, and its anchor is the result.
pub record Took (p : Pool) (a : Assigned) : Type 0 where
  pub slot : ℕ
  pub in_space : slot < hash_space
  pub was_clear : get_bit p.used slot ≡ false
  pub anchor : a.hash ≡ idx_to_hash slot
  pub marked : a.pool.used ≡ set_bit p.used slot

pub assign_hash-Took :
    (p : Pool) (base : ℕ) (a : Assigned)
    → base < hash_space
    → assign_hash p base ≡ some a
    → Took p a
unfolding assign_hash
assign_hash-Took p base a h e = elim (Bool-cases (get_bit p.used base)) [
  | inr clear ↦ record {
    slot = base;
    in_space = h;
    was_clear = clear;
    anchor = ground arith;
    marked = ground arith;
  }
  | inl set ↦ elim (Option-cases (next_zero_bit p.used p.hint)) [
    | inl full ↦ absurd (ground arith)
    | inr (z, found) ↦
        let sound : (z < hash_space) × (get_bit p.used z ≡ false) =
          next_zero_bit_sound p.used p.hint z found in
        record {
          slot = z;
          in_space = sound.0;
          was_clear = sound.1;
          anchor = ground arith;
          marked = ground arith;
        }
  ]
]

-- With a free slot left an allocation succeeds.
pub assign_hash-total :
    (p : Pool) (base : ℕ)
    → 0 < free p.used hash_space
    → (a : Assigned) × (assign_hash p base ≡ some a)
unfolding assign_hash
assign_hash-total p base h = elim (Bool-cases (get_bit p.used base)) [
  | inr clear ↦ rw clear (_, refl)
  | inl set ↦ elim (Option-cases (next_zero_bit p.used p.hint)) [
    | inr (z, found) ↦ rw (set, found) (_, refl)
    | inl full ↦
        let (t, below, clear) = free-pos p.used hash_space h in
        absurd (ground (arith, next_zero_bit-none p.used p.hint t full below))
  ]
]

pub base_index-lt : (xxh32 : Str → ℕ) (line : Str) → base_index xxh32 line < hash_space
unfolding base_index
base_index-lt xxh32 line = omega arith

-- The anchors of a run of allocations, each from a slot that was clear when it was taken.
pub data Fresh : Bitset → List Str → Type 0 where
  done : {used : Bitset} → Fresh used []
  next :
      {used : Bitset} {hash : Str} {hashes : List Str} (slot : ℕ)
      → slot < hash_space
      → get_bit used slot ≡ false
      → hash ≡ idx_to_hash slot
      → Fresh (set_bit used slot) hashes
      → Fresh used (hash ∷ hashes)

-- An anchor whose bit is set is not handed out again.
pub Fresh-NotIn :
    {used : Bitset} {hashes : List Str} (hash : Str) (i : ℕ)
    → hash_to_index hash ≡ some i
    → get_bit used i ≡ true
    → Fresh used hashes
    → NotIn hash hashes
Fresh-NotIn hash i e h done = tt
Fresh-NotIn {used} hash i e h (next {hash = other} slot b c a f) = (
  (λ same.
      ground (arith, ap hash_to_index same, ap hash_to_index a, hash_to_index-idx_to_hash slot b)),
  Fresh-NotIn hash i e (set_bit-keeps used slot i h) f,
)

pub Fresh-Distinct : {used : Bitset} {hashes : List Str} → Fresh used hashes → Distinct hashes
Fresh-Distinct done = tt
Fresh-Distinct {used} (next {hash} slot b c a f) = (
  Fresh-NotIn hash slot (ap hash_to_index a ∙ hash_to_index-idx_to_hash slot b)
      (get_bit-set_bit_self used slot) f,
  Fresh-Distinct f,
)

pub Fresh-matches :
    {used : Bitset} {hashes : List Str}
    → Fresh used hashes
    → All (λ h. matches_hash_re h ≡ true) hashes
Fresh-matches done = tt
Fresh-matches (next slot b c a f) =
    (ap matches_hash_re a ∙ idx_to_hash-matches slot b, Fresh-matches f)

pub assign_all-Fresh :
    (xxh32 : Str → ℕ) (p : Pool) (lines hashes : List Str)
    → assign_all xxh32 p lines ≡ some hashes
    → Fresh p.used hashes × (length hashes ≡ length lines)
unfolding assign_all
assign_all-Fresh xxh32 p [] hashes e = let same : [] ≡ hashes = cc in rw (← same) (done, refl)
assign_all-Fresh xxh32 p (line ∷ lines) hashes e =
    elim (Option-cases (assign_hash p (base_index xxh32 line))) [
      | inl full ↦ absurd (ground arith)
      | inr (a, took) ↦ elim (Option-cases (assign_all xxh32 a.pool lines)) [
        | inl full ↦ absurd (ground arith)
        | inr (rest, found) ↦
            let t : Took p a =
              assign_hash-Took p (base_index xxh32 line) a (base_index-lt xxh32 line) took in
            let ih : Fresh a.pool.used rest × (length rest ≡ length lines) =
              assign_all-Fresh xxh32 a.pool lines rest found in
            let same : a.hash ∷ rest ≡ hashes = ground arith in
            rw (← same)
              (next t.slot t.in_space t.was_clear t.anchor (rw t.marked at ih.0), ap suc ih.1)
      ]
    ]

assign_all-cons :
    (xxh32 : Str → ℕ) (p : Pool) (line : Str) (lines : List Str) (a : Assigned) (rest : List Str)
    → assign_hash p (base_index xxh32 line) ≡ some a
    → assign_all xxh32 a.pool lines ≡ some rest
    → assign_all xxh32 p (line ∷ lines) ≡ some (a.hash ∷ rest)
unfolding assign_all
assign_all-cons xxh32 p line lines a rest took found = ground arith

pub assign_all-total :
    (xxh32 : Str → ℕ) (p : Pool) (lines : List Str)
    → length lines ≤ free p.used hash_space
    → (hashes : List Str) × (assign_all xxh32 p lines ≡ some hashes)
assign_all-total xxh32 p [] h = ([], unfold assign_all in refl)
assign_all-total xxh32 p (line ∷ lines) h =
    let (a, took) = assign_hash-total p (base_index xxh32 line) (omega arith) in
    let t : Took p a =
      assign_hash-Took p (base_index xxh32 line) a (base_index-lt xxh32 line) took in
    let room : length lines ≤ free a.pool.used hash_space =
      rw t.marked (omega (arith, free-set_bit p.used t.slot hash_space)) in
    let (hashes, rest) = assign_all-total xxh32 a.pool lines room in
    (a.hash ∷ hashes, assign_all-cons xxh32 p line lines a hashes took rest)

mark_hash_used-keeps :
    (bits : Bitset) (hash : Str) (i : ℕ)
    → get_bit bits i ≡ true
    → get_bit (mark_hash_used bits hash) i ≡ true
unfolding mark_hash_used
mark_hash_used-keeps bits hash i h = elim (Option-cases (hash_to_index hash)) [
  | inl missing ↦ rw (missing, mark_hash_used) h
  | inr (j, found) ↦ rw (found, mark_hash_used) (set_bit-keeps bits j i h)
]

mark_hash_used-marks :
    (bits : Bitset) (hash : Str) (i : ℕ)
    → hash_to_index hash ≡ some i
    → get_bit (mark_hash_used bits hash) i ≡ true
unfolding mark_hash_used
mark_hash_used-marks bits hash i e = rw (e, mark_hash_used) (get_bit-set_bit_self bits i)

pub mark_all-keeps :
    (bits : Bitset) (hashes : List Str) (i : ℕ)
    → get_bit bits i ≡ true
    → get_bit (mark_all bits hashes) i ≡ true
unfolding mark_all
mark_all-keeps bits [] i h = h
mark_all-keeps bits (hash ∷ hashes) i h =
    mark_all-keeps (mark_hash_used bits hash) hashes i (mark_hash_used-keeps bits hash i h)

-- Every member of a reserved set has its bit set.
pub mark_all-marks :
    (bits : Bitset) (hashes : List Str) (hash : Str) (i : ℕ)
    → has hash hashes ≡ true
    → hash_to_index hash ≡ some i
    → get_bit (mark_all bits hashes) i ≡ true
unfolding mark_all has
mark_all-marks bits [] hash i h e = cc
mark_all-marks bits (other ∷ hashes) hash i h e = elim (Bool-cases (str_eq hash other)) [
  | inl same ↦
      let found : hash_to_index other ≡ some i =
        ap hash_to_index (sym (str_eq_sound hash other same)) ∙ e in
      mark_all-keeps (mark_hash_used bits other) hashes i (mark_hash_used-marks bits other i found)
  | inr differs ↦ mark_all-marks (mark_hash_used bits other) hashes hash i (ground arith) e
]

-- What `lineHashesPure` promises of the anchors that it hands out.
pub record AreFresh (content : Str) (reserved hashes : List Str) : Type 0 where
  pub aligned : length hashes ≡ length (split_lines content)
  pub distinct : Distinct hashes
  pub well_formed : All (λ h. matches_hash_re h ≡ true) hashes
  pub unreserved : (r : Str) → has r reserved ≡ true → NotIn r hashes

matches-NotIn :
    (r : Str) (hashes : List Str)
    → matches_hash_re r ≡ false
    → All (λ h. matches_hash_re h ≡ true) hashes
    → NotIn r hashes
matches-NotIn r [] h k = tt
matches-NotIn r (x ∷ xs) h (p, k) =
    ((λ e. ground (arith, ap matches_hash_re e)), matches-NotIn r xs h k)

reserved-NotIn :
    (reserved hashes : List Str) (r : Str)
    → has r reserved ≡ true
    → Fresh (mark_all empty_bits reserved) hashes
    → NotIn r hashes
reserved-NotIn reserved hashes r h f = elim (Bool-cases (matches_hash_re r)) [
  | inl well ↦
      let (i, found, _, _) = idx_to_hash-hash_to_index r well in
      Fresh-NotIn r i found (mark_all-marks empty_bits reserved r i h found) f
  | inr ill ↦ matches-NotIn r hashes ill (Fresh-matches f)
]

-- The pool that `lineHashesPure` starts from.
abbrev start : List Str → Pool
start reserved = record { used = mark_all empty_bits reserved; hint = 0 }

-- Where `lineHashesPure` succeeds there is one anchor for each line, no two are alike, each has the form
-- of an anchor, and no reserved anchor is among them.
pub line_hashes_pure-AreFresh :
    (xxh32 : Str → ℕ) (content : Str) (reserved : List Str) (rc sc : Option ℕ) (hashes : List Str)
    → line_hashes_pure xxh32 content reserved rc sc ≡ allocated hashes
    → AreFresh content reserved hashes
unfolding line_hashes_pure
line_hashes_pure-AreFresh xxh32 content reserved rc sc hashes e =
    elim (Option-cases (assign_all xxh32 (start reserved) (split_lines content))) [
      | inl full ↦ absurd (ground arith)
      | inr (found, assigned) ↦
          let same : found ≡ hashes = ground arith in
          let (f, aligned) =
            assign_all-Fresh xxh32 (start reserved) (split_lines content) hashes
              (assigned ∙ ap some same) in
          record {
            aligned = aligned;
            distinct = Fresh-Distinct f;
            well_formed = Fresh-matches f;
            unreserved = λ r h. reserved-NotIn reserved hashes r h f;
          }
    ]

-- Where the lines and the reserved anchors are together at most as many as the anchor space holds, the
-- allocation succeeds.
pub line_hashes_pure-total :
    (xxh32 : Str → ℕ) (content : Str) (reserved : List Str) (rc sc : Option ℕ)
    → length (split_lines content) + length reserved ≤ hash_space
    → (hashes : List Str) × (line_hashes_pure xxh32 content reserved rc sc ≡ allocated hashes)
unfolding line_hashes_pure
line_hashes_pure-total xxh32 content reserved rc sc h =
    let room : length (split_lines content) ≤ free (mark_all empty_bits reserved) hash_space =
      omega (arith, free-mark_all empty_bits reserved hash_space, free-empty_bits hash_space) in
    let (hashes, found) = assign_all-total xxh32 (start reserved) (split_lines content) room in
    (hashes, ground (arith, found))
