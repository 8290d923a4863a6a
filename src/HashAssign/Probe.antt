-- ===== src/HashAssign/Probe.antt =====
-- The probe of `nextZeroBit`: the stride is coprime to the size of the anchor space, so the probe
-- visits every slot before it gives up.
use dsh_better_edit.Prelude.{
  ℕ, zero, suc, ◌+◌, ◌-◌, ◌*◌, ◌%◌, ◌<◌, ◌≡◌, true, false, none, some, leb, if◌then◌else◌, arith,
  Bool-cases, inl, inr,
}
use dsh_better_edit.HashAssign.{
  Bitset, hash_space, hash_probe_stride, get_bit, probe, next_zero_bit,
}

-- The next slot of the probe.
abbrev pub step : ℕ → ℕ
step idx =
    if leb hash_space (idx + hash_probe_stride)
    then idx + hash_probe_stride - hash_space
    else idx + hash_probe_stride

step-lt : (idx : ℕ) → idx < hash_space → step idx < hash_space
step-lt idx h = ground arith

step-mod :
    (idx k : ℕ)
    → (step idx + k * hash_probe_stride) % hash_space
      ≡ (idx + suc k * hash_probe_stride) % hash_space
step-mod idx k = ground arith

probe_sound :
    (rounds : ℕ) (bits : Bitset) (idx z : ℕ)
    → idx < hash_space
    → probe rounds bits idx ≡ some z
    → (z < hash_space) × (get_bit bits z ≡ false)
unfolding probe
probe_sound zero bits idx z h e = cc
probe_sound (suc rounds) bits idx z h e = elim (Bool-cases (get_bit bits idx)) [
  | inl set ↦ probe_sound rounds bits (step idx) z (step-lt idx h) (rw (set, probe) at e)
  | inr clear ↦ ground arith
]

-- A probe that gives up has seen a set bit at every slot on its way.
probe-none :
    (rounds : ℕ) (bits : Bitset) (idx k : ℕ)
    → idx < hash_space
    → probe rounds bits idx ≡ none
    → k < rounds
    → get_bit bits ((idx + k * hash_probe_stride) % hash_space) ≡ true
unfolding probe
probe-none zero bits idx k h e b = absurd (omega arith)
probe-none (suc rounds) bits idx zero h e b =
    let here : (idx + 0 * hash_probe_stride) % hash_space ≡ idx = omega arith in
    rw here (ground arith)
probe-none (suc rounds) bits idx (suc k) h e b = elim (Bool-cases (get_bit bits idx)) [
  | inl set ↦
      rw (← step-mod idx k)
        (probe-none rounds bits (step idx) k (step-lt idx h) (rw (set, probe) at e) (omega arith))
  | inr clear ↦ absurd (ground arith)
]

-- 61 * 3907 is -1 modulo the size of the anchor space.
stride_reaches :
    (s t : ℕ)
    → s < hash_space
    → t < hash_space
    → (s + 61 * (s + hash_space - t) % hash_space * hash_probe_stride) % hash_space ≡ t
stride_reaches s t h k = omega arith

-- The slot that the probe finds lies in the anchor space and is free.
pub next_zero_bit_sound :
    (bits : Bitset) (start z : ℕ)
    → next_zero_bit bits start ≡ some z
    → (z < hash_space) × (get_bit bits z ≡ false)
unfolding next_zero_bit
next_zero_bit_sound bits start z e =
    probe_sound hash_space bits (start % hash_space) z (omega arith) e

-- The probe fails only if every slot of the anchor space is in use.
pub next_zero_bit-none :
    (bits : Bitset) (start t : ℕ)
    → next_zero_bit bits start ≡ none
    → t < hash_space
    → get_bit bits t ≡ true
unfolding next_zero_bit
next_zero_bit-none bits start t e h =
    let s : ℕ = start % hash_space in
    rw (← stride_reaches s t (omega arith) h) (
      probe-none hash_space bits s (61 * (s + hash_space - t) % hash_space) (omega arith) e
        (omega arith))
