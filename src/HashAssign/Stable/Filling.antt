-- ===== src/HashAssign/Stable/Filling.antt =====
-- The last loop of `mapStableHashes`: the empty slots get anchors whose bits were clear.
use dsh_better_edit.Prelude.{
  ℕ, zero, suc, ◌≤◌, ◌≡◌, ◌⊎◌, refl, sym, ap, ◌∙◌, true, false, Option, none, some, List, [], ◌∷◌,
  Str, get_elem?, length, arith, Bool-cases, Option-cases, inl, inr, NotIn, Distinct, map,
}
use dsh_better_edit.HashAssign.{
  Bitset, hash_space, get_bit, set_bit, hash_to_index, base_index, Pool, Assigned, assign_hash,
}
use dsh_better_edit.HashAssign.Bits.{set_bit-keeps, get_bit-set_bit_self}
use dsh_better_edit.HashAssign.Codec.{hash_to_index-idx_to_hash}
use dsh_better_edit.HashAssign.Capacity.{free, free-set_bit}
use dsh_better_edit.HashAssign.Fresh.{Took, assign_hash-Took, assign_hash-total, base_index-lt}
use dsh_better_edit.HashAssign.Stable.{fill, truthy}
use dsh_better_edit.HashAssign.Stable.Placing.{NotPlaced, PlacedDistinct}

-- The anchor's bit is set.
abbrev pub IsMarked : Bitset → Str → Type 0
IsMarked bits h = (i : ℕ) × (hash_to_index h ≡ some i) × (get_bit bits i ≡ true)

-- The anchor's bit is clear.
abbrev pub IsUnmarked : Bitset → Str → Type 0
IsUnmarked bits h = (i : ℕ) × (hash_to_index h ≡ some i) × (get_bit bits i ≡ false)

abbrev pub SlotsMarked : Bitset → List (Option Str) → Type 0
SlotsMarked bits [] = Unit
SlotsMarked bits (none ∷ slots) = SlotsMarked bits slots
SlotsMarked bits (some h ∷ slots) = IsMarked bits h × SlotsMarked bits slots

-- The result of the loop, with the branches that led to it.
pub data Filled : Bitset → List (Option Str) → List Str → Type 0 where
  done : {bits : Bitset} {slots : List (Option Str)} → Filled bits slots []
  keep :
      {bits : Bitset} {slots : List (Option Str)} {hashes : List Str} {hash : Str}
      → Filled bits slots hashes
      → Filled bits (some hash ∷ slots) (hash ∷ hashes)
  take_slot :
      {bits : Bitset} {slots : List (Option Str)} {hashes : List Str} {hash : Str} (slot : ℕ)
      → hash_to_index hash ≡ some slot
      → get_bit bits slot ≡ false
      → Filled (set_bit bits slot) slots hashes
      → Filled bits (none ∷ slots) (hash ∷ hashes)

pub fill-Filled :
    (xxh32 : Str → ℕ) (p : Pool) (slots : List (Option Str)) (lines hashes : List Str)
    → fill xxh32 p slots lines ≡ some hashes
    → Filled p.used slots hashes
unfolding fill
fill-Filled xxh32 p slots [] hashes e = let same : [] ≡ hashes = cc in rw (← same) done
fill-Filled xxh32 p [] (line ∷ lines) hashes e = let same : [] ≡ hashes = cc in rw (← same) done
fill-Filled xxh32 p (some hash ∷ slots) (line ∷ lines) hashes e =
    elim (Option-cases (fill xxh32 p slots lines)) [
      | inl full ↦ absurd (ground arith)
      | inr (rest, found) ↦
          let same : hash ∷ rest ≡ hashes = ground arith in
          rw (← same) (keep (fill-Filled xxh32 p slots lines rest found))
    ]
fill-Filled xxh32 p (none ∷ slots) (line ∷ lines) hashes e =
    elim (Option-cases (assign_hash p (base_index xxh32 line))) [
      | inl full ↦ absurd (ground arith)
      | inr (a, took) ↦ elim (Option-cases (fill xxh32 a.pool slots lines)) [
        | inl full ↦ absurd (ground arith)
        | inr (rest, found) ↦
            let t : Took p a =
              assign_hash-Took p (base_index xxh32 line) a (base_index-lt xxh32 line) took in
            let ih : Filled a.pool.used slots rest =
              fill-Filled xxh32 a.pool slots lines rest found in
            let same : a.hash ∷ rest ≡ hashes = ground arith in
            rw (← same) (
              take_slot t.slot
                (ap hash_to_index t.anchor ∙ hash_to_index-idx_to_hash t.slot t.in_space)
                t.was_clear (rw t.marked at ih))
      ]
    ]

pub length-fill :
    (xxh32 : Str → ℕ) (p : Pool) (slots : List (Option Str)) (lines hashes : List Str)
    → fill xxh32 p slots lines ≡ some hashes
    → length slots ≡ length lines
    → length hashes ≡ length lines
unfolding fill
length-fill xxh32 p slots [] hashes e h = ground arith
length-fill xxh32 p [] (line ∷ lines) hashes e h = absurd (omega arith)
length-fill xxh32 p (some hash ∷ slots) (line ∷ lines) hashes e h =
    elim (Option-cases (fill xxh32 p slots lines)) [
      | inl full ↦ absurd (ground arith)
      | inr (rest, found) ↦ ground (arith, length-fill xxh32 p slots lines rest found)
    ]
length-fill xxh32 p (none ∷ slots) (line ∷ lines) hashes e h =
    elim (Option-cases (assign_hash p (base_index xxh32 line))) [
      | inl full ↦ absurd (ground arith)
      | inr (a, took) ↦ elim (Option-cases (fill xxh32 a.pool slots lines)) [
        | inl full ↦ absurd (ground arith)
        | inr (rest, found) ↦ ground (arith, length-fill xxh32 a.pool slots lines rest found)
      ]
    ]

pub Filled-NotIn :
    {bits : Bitset} {slots : List (Option Str)} {hashes : List Str} (h : Str)
    → IsMarked bits h
    → NotPlaced h slots
    → Filled bits slots hashes
    → NotIn h hashes
Filled-NotIn h m p done = tt
Filled-NotIn h m p (keep f) = (p.0, Filled-NotIn h m p.1 f)
Filled-NotIn {bits} h m p (take_slot slot e c f) = (
  (λ same. ground (arith, m.1, m.2, ap hash_to_index same)),
  Filled-NotIn h (m.0, m.1, set_bit-keeps bits slot m.0 m.2) p f,
)

SlotsMarked-set_bit :
    (bits : Bitset) (slot : ℕ) (slots : List (Option Str))
    → SlotsMarked bits slots
    → SlotsMarked (set_bit bits slot) slots
SlotsMarked-set_bit bits slot [] m = tt
SlotsMarked-set_bit bits slot (none ∷ slots) m = SlotsMarked-set_bit bits slot slots m
SlotsMarked-set_bit bits slot (some h ∷ slots) (m, ms) =
    ((m.0, m.1, set_bit-keeps bits slot m.0 m.2), SlotsMarked-set_bit bits slot slots ms)

-- An anchor with a clear bit stands in no slot whose anchors are marked.
unmarked-NotPlaced :
    (bits : Bitset) (h : Str) (slots : List (Option Str))
    → IsUnmarked bits h
    → SlotsMarked bits slots
    → NotPlaced h slots
unmarked-NotPlaced bits h [] u m = tt
unmarked-NotPlaced bits h (none ∷ slots) u m = unmarked-NotPlaced bits h slots u m
unmarked-NotPlaced bits h (some x ∷ slots) u (m, ms) = (
  (λ same. ground (arith, m.1, m.2, u.1, u.2, ap hash_to_index same)),
  unmarked-NotPlaced bits h slots u ms,
)

pub Filled-Distinct :
    {bits : Bitset} {slots : List (Option Str)} {hashes : List Str}
    → PlacedDistinct slots
    → SlotsMarked bits slots
    → Filled bits slots hashes
    → Distinct hashes
Filled-Distinct d m done = tt
Filled-Distinct d m (keep {hash} f) = (Filled-NotIn hash m.0 d.0 f, Filled-Distinct d.1 m.1 f)
Filled-Distinct {bits} d m (take_slot {slots} {hash} slot e c f) = (
  Filled-NotIn hash (slot, e, get_bit-set_bit_self bits slot)
      (unmarked-NotPlaced bits hash slots (slot, e, c) m) f,
  Filled-Distinct d (SlotsMarked-set_bit bits slot slots m) f,
)

-- An anchor of the result was placed at its line, or its bit was clear.
pub Filled-get :
    {bits : Bitset} {slots : List (Option Str)} {hashes : List Str} (j : ℕ) (h : Str)
    → Filled bits slots hashes
    → get_elem? hashes j ≡ some h
    → (get_elem? slots j ≡ some (some h)) ⊎ IsUnmarked bits h
Filled-get j h done e = absurd (ground arith)
Filled-get zero h (keep f) e = inl (ground arith)
Filled-get (suc j) h (keep f) e = Filled-get j h f e
Filled-get zero h (take_slot {hash} slot i c f) e =
    let same : hash ≡ h = ground arith in inr (slot, ap hash_to_index (sym same) ∙ i, c)
Filled-get {bits} (suc j) h (take_slot slot i c f) e = elim (Filled-get j h f e) [
  | inl placed ↦ inl placed
  | inr (k, at, clear) ↦ inr (
    k,
    at,
    elim (Bool-cases (get_bit bits k)) [
      | inl marked ↦ absurd (ground (arith, set_bit-keeps bits slot k marked))
      | inr unmarked ↦ unmarked
    ],
  )
]

fill-keep :
    (xxh32 : Str → ℕ) (p : Pool) (hash : Str) (slots : List (Option Str)) (line : Str)
    (lines rest : List Str)
    → fill xxh32 p slots lines ≡ some rest
    → fill xxh32 p (some hash ∷ slots) (line ∷ lines) ≡ some (hash ∷ rest)
unfolding fill
fill-keep xxh32 p hash slots line lines rest found = ground arith

fill-take :
    (xxh32 : Str → ℕ) (p : Pool) (slots : List (Option Str)) (line : Str) (lines : List Str)
    (a : Assigned) (rest : List Str)
    → assign_hash p (base_index xxh32 line) ≡ some a
    → fill xxh32 a.pool slots lines ≡ some rest
    → fill xxh32 p (none ∷ slots) (line ∷ lines) ≡ some (a.hash ∷ rest)
unfolding fill
fill-take xxh32 p slots line lines a rest took found = ground arith

-- With a free slot for each line the loop succeeds.
pub fill-total :
    (xxh32 : Str → ℕ) (p : Pool) (slots : List (Option Str)) (lines : List Str)
    → length lines ≤ free p.used hash_space
    → (hashes : List Str) × (fill xxh32 p slots lines ≡ some hashes)
fill-total xxh32 p slots [] h = ([], unfold fill in refl)
fill-total xxh32 p [] (line ∷ lines) h = ([], unfold fill in refl)
fill-total xxh32 p (some hash ∷ slots) (line ∷ lines) h =
    let (rest, found) = fill-total xxh32 p slots lines (omega arith) in
    (hash ∷ rest, fill-keep xxh32 p hash slots line lines rest found)
fill-total xxh32 p (none ∷ slots) (line ∷ lines) h =
    let (a, took) = assign_hash-total p (base_index xxh32 line) (omega arith) in
    let t : Took p a =
      assign_hash-Took p (base_index xxh32 line) a (base_index-lt xxh32 line) took in
    let room : length lines ≤ free a.pool.used hash_space =
      rw t.marked (omega (arith, free-set_bit p.used t.slot hash_space)) in
    let (rest, found) = fill-total xxh32 a.pool slots lines room in
    (a.hash ∷ rest, fill-take xxh32 p slots line lines a rest took found)

-- Leaving empty anchors out keeps what is known of the slots.
pub get_elem?-truthy :
    (slots : List (Option Str)) (j : ℕ) (h : Str)
    → get_elem? (map truthy slots) j ≡ some (some h)
    → get_elem? slots j ≡ some (some h)
get_elem?-truthy [] j h e = e
get_elem?-truthy (none ∷ slots) zero h e = e
get_elem?-truthy (some [] ∷ slots) zero h e = cc
get_elem?-truthy (some (c ∷ x) ∷ slots) zero h e = e
get_elem?-truthy (none ∷ slots) (suc j) h e = get_elem?-truthy slots j h e
get_elem?-truthy (some x ∷ slots) (suc j) h e = get_elem?-truthy slots j h e

truthy-NotPlaced :
    (h : Str) (slots : List (Option Str)) → NotPlaced h slots → NotPlaced h (map truthy slots)
truthy-NotPlaced h [] p = tt
truthy-NotPlaced h (none ∷ slots) p = truthy-NotPlaced h slots p
truthy-NotPlaced h (some [] ∷ slots) p = truthy-NotPlaced h slots p.1
truthy-NotPlaced h (some (c ∷ x) ∷ slots) p = (p.0, truthy-NotPlaced h slots p.1)

pub truthy-PlacedDistinct :
    (slots : List (Option Str)) → PlacedDistinct slots → PlacedDistinct (map truthy slots)
truthy-PlacedDistinct [] p = tt
truthy-PlacedDistinct (none ∷ slots) p = truthy-PlacedDistinct slots p
truthy-PlacedDistinct (some [] ∷ slots) p = truthy-PlacedDistinct slots p.1
truthy-PlacedDistinct (some (c ∷ x) ∷ slots) p =
    (truthy-NotPlaced (c ∷ x) slots p.0, truthy-PlacedDistinct slots p.1)

pub truthy-SlotsMarked :
    (bits : Bitset) (slots : List (Option Str))
    → SlotsMarked bits slots
    → SlotsMarked bits (map truthy slots)
truthy-SlotsMarked bits [] m = tt
truthy-SlotsMarked bits (none ∷ slots) m = truthy-SlotsMarked bits slots m
truthy-SlotsMarked bits (some [] ∷ slots) m = truthy-SlotsMarked bits slots m.1
truthy-SlotsMarked bits (some (c ∷ x) ∷ slots) m = (m.0, truthy-SlotsMarked bits slots m.1)
