-- ===== src/HashAssign/Capacity.antt =====
-- How many slots of the anchor space are left: each allocation and each reservation takes at most one.
use dsh_better_edit.Prelude.{
  ℕ, zero, suc, ◌+◌, ◌<◌, ◌≤◌, ◌≡◌, refl, false, List, [], ◌∷◌, Str, ◌==◌, if◌then◌else◌, arith,
  Bool-cases, Option-cases, inl, inr, length,
}
use dsh_better_edit.HashAssign.{
  Bitset, empty_bits, get_bit, set_bit, hash_to_index, mark_hash_used, mark_all,
}
use dsh_better_edit.HashAssign.Bits.{get_bit-set_bit, get_bit-empty_bits}

-- The clear bits below `n`.
pub free : Bitset → ℕ → ℕ
free bits zero = 0
free bits (suc n) = (if get_bit bits n then 0 else 1) + free bits n

pub free-empty_bits : (n : ℕ) → free empty_bits n ≡ n
unfolding free
free-empty_bits zero = refl
free-empty_bits (suc n) = ground (arith, get_bit-empty_bits n, free-empty_bits n)

free-set_bit_above : (bits : Bitset) (i n : ℕ) → n ≤ i → free bits n ≤ free (set_bit bits i) n
unfolding free
free-set_bit_above bits i zero h = omega arith
free-set_bit_above bits i (suc n) h =
    ground (arith, get_bit-set_bit bits i n, free-set_bit_above bits i n)

pub free-set_bit : (bits : Bitset) (i n : ℕ) → free bits n ≤ free (set_bit bits i) n + 1
unfolding free
free-set_bit bits i zero = omega arith
free-set_bit bits i (suc n) = elim (Bool-cases (i == n)) [
  | inl same ↦ ground (arith, free-set_bit_above bits i n)
  | inr other ↦ ground (arith, get_bit-set_bit bits i n, free-set_bit bits i n)
]

pub free-pos :
    (bits : Bitset) (n : ℕ) → 0 < free bits n → (t : ℕ) × (t < n) × (get_bit bits t ≡ false)
unfolding free
free-pos bits zero h = absurd (omega arith)
free-pos bits (suc n) h = elim (Bool-cases (get_bit bits n)) [
  | inl set ↦ let (t, below, clear) = free-pos bits n (ground arith) in (t, omega arith, clear)
  | inr clear ↦ (n, omega arith, clear)
]

free-mark_hash_used :
    (bits : Bitset) (hash : Str) (n : ℕ) → free bits n ≤ free (mark_hash_used bits hash) n + 1
unfolding mark_hash_used
free-mark_hash_used bits hash n = elim (Option-cases (hash_to_index hash)) [
  | inl missing ↦ rw (missing, mark_hash_used) (omega arith)
  | inr (i, found) ↦ rw (found, mark_hash_used) (free-set_bit bits i n)
]

pub free-mark_all :
    (bits : Bitset) (hashes : List Str) (n : ℕ)
    → free bits n ≤ free (mark_all bits hashes) n + length hashes
unfolding mark_all
free-mark_all bits [] n = omega arith
free-mark_all bits (hash ∷ hashes) n =
    omega
      (arith, free-mark_hash_used bits hash n, free-mark_all (mark_hash_used bits hash) hashes n)
