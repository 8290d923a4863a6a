-- ===== src/HashAssign/Bits.antt =====
-- The bitset of hash-assign.ts: a write sets its own bit and leaves every other bit alone.
use dsh_better_edit.Prelude.{
  ℕ, zero, suc, ◌+◌, ◌-◌, ◌*◌, ◌/◌, ◌%◌, ◌≡◌, ◌≢◌, refl, true, false, ◌==◌, ==_iff, if◌then◌else◌,
  arith, Bool-cases, inl, inr,
}
use dsh_better_edit.HashAssign.{Bitset, empty_bits, shift_right, or_bit, get_bit, set_bit}

shift_right-or_bit_self : (w k : ℕ) → shift_right (or_bit w k) k % 2 ≡ 1
unfolding shift_right or_bit
shift_right-or_bit_self w zero = omega arith
shift_right-or_bit_self w (suc k) =
    let half : (or_bit (w / 2) k * 2 + w % 2) / 2 ≡ or_bit (w / 2) k = omega arith in
    rw half (shift_right-or_bit_self (w / 2) k)

shift_right-or_bit_ne : (w k m : ℕ) → k ≢ m → shift_right (or_bit w k) m % 2 ≡ shift_right w m % 2
unfolding shift_right or_bit
shift_right-or_bit_ne w zero zero h = absurd (h refl)
shift_right-or_bit_ne w zero (suc m) h =
    let half : (w - w % 2 + 1) / 2 ≡ w / 2 = omega arith in rw half refl
shift_right-or_bit_ne w (suc k) zero h = omega arith
shift_right-or_bit_ne w (suc k) (suc m) h =
    let half : (or_bit (w / 2) k * 2 + w % 2) / 2 ≡ or_bit (w / 2) k = omega arith in
    rw half (shift_right-or_bit_ne (w / 2) k m (omega arith))

pub get_bit-set_bit_self : (bits : Bitset) (i : ℕ) → get_bit (set_bit bits i) i ≡ true
unfolding get_bit set_bit
get_bit-set_bit_self bits i = ground (arith, shift_right-or_bit_self (bits (i / 32)) (i % 32))

pub get_bit-set_bit_ne :
    (bits : Bitset) (i j : ℕ) → i ≢ j → get_bit (set_bit bits i) j ≡ get_bit bits j
unfolding get_bit set_bit
get_bit-set_bit_ne bits i j h = elim (Bool-cases (j / 32 == i / 32)) [
  | inl same ↦
      let differ : i % 32 ≢ j % 32 = omega (arith, (==_iff (j / 32) (i / 32)).0 same) in
      rw (same, shift_right-or_bit_ne (bits (j / 32)) (i % 32) (j % 32) differ) refl
  | inr other ↦ rw other refl
]

pub get_bit-set_bit :
    (bits : Bitset) (i j : ℕ)
    → get_bit (set_bit bits i) j ≡ (if i == j then true else get_bit bits j)
get_bit-set_bit bits i j = elim (Bool-cases (i == j)) [
  | inl same ↦ let e : i ≡ j = (==_iff i j).0 same in rw (same, ← e) (get_bit-set_bit_self bits i)
  | inr other ↦ rw other (get_bit-set_bit_ne bits i j (λ e. ground arith))
]

-- A bit once set stays set.
pub set_bit-keeps :
    (bits : Bitset) (i j : ℕ) → get_bit bits j ≡ true → get_bit (set_bit bits i) j ≡ true
set_bit-keeps bits i j h = ground (arith, get_bit-set_bit bits i j)

shift_right-zero : (k : ℕ) → shift_right 0 k ≡ 0
unfolding shift_right
shift_right-zero zero = refl
shift_right-zero (suc k) = shift_right-zero k

pub get_bit-empty_bits : (i : ℕ) → get_bit empty_bits i ≡ false
unfolding get_bit empty_bits
get_bit-empty_bits i = rw (shift_right-zero (i % 32)) refl
