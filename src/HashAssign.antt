-- ===== src/HashAssign.antt =====
-- src/hashline/hash-assign.ts: anchors, their codec, the bitset of used anchors, probing, and the two
-- allocators `lineHashesPure` and `mapStableHashes` (the latter in the child `Stable`).
pub mod Codec
pub mod Bits
pub mod Probe
pub mod Capacity
pub mod Fresh
pub mod Stable
use dsh_better_edit.Prelude.{
  ℕ, zero, suc, ◌+◌, ◌-◌, ◌*◌, ◌/◌, ◌%◌, ◌^◌, ◌≡◌, Bool, true, false, ◌||◌, Option, none, some,
  List, [], ◌∷◌, ◌++◌, Str, units, ◌==◌, ltb, leb, if◌then◌else◌, get_elem?, length, has,
}
use dsh_better_edit.Text.{split_lines}

unfoldable pub alph : Str
alph = units "ABCDEFGHIJKLMNOPQRSTUVWXYZabcdefghijklmnopqrstuvwxyz0123456789"

abbrev pub alph_length : ℕ
alph_length = 62

abbrev pub hash_len : ℕ
hash_len = 3

-- `ALPH.length ** HASH_LEN`.
abbrev pub hash_space : ℕ
hash_space = 238_328

-- `ALPH.length ** 2 + ALPH.length + 1`.
abbrev pub hash_probe_stride : ℕ
hash_probe_stride = 3907

-- HASH_SEP, the code unit of "│".
abbrev pub hash_sep : ℕ
hash_sep = 0x2502

-- `ALPH[k]`; an index out of range reads nothing.
unfoldable pub alph_at : ℕ → Str
alph_at k = elim (get_elem? alph k) [ none ↦ [] | some c ↦ c ∷ [] ]

-- The loop of `idxToHash`: `rounds` digits, the lowest first, each put in front.
unfoldable pub idx_loop : ℕ → ℕ → Str → Str
idx_loop zero idx out = out
idx_loop (suc rounds) idx out =
    idx_loop rounds (idx / alph_length) (alph_at (idx % alph_length) ++ out)

unfoldable pub idx_to_hash : ℕ → Str
idx_to_hash idx = idx_loop hash_len idx []

-- `ALPH.indexOf(c)`; -1 is `none`.
unfoldable pub position_of : ℕ → Str → Option ℕ
position_of u [] = none
position_of u (c ∷ s) =
    if c == u then some 0 else elim (position_of u s) [ none ↦ none | some i ↦ some (suc i) ]

-- The loop of `hashToIndex`; -1 is `none`, also where the text is too short.
unfoldable pub index_loop : ℕ → Str → ℕ → Option ℕ
index_loop zero s idx = some idx
index_loop (suc rounds) [] idx = none
index_loop (suc rounds) (c ∷ s) idx = elim (position_of c alph) [
  | none ↦ none
  | some k ↦ index_loop rounds s (idx * alph_length + k)
]

unfoldable pub hash_to_index : Str → Option ℕ
hash_to_index hash = index_loop hash_len hash 0

-- HASH_RE: three code units, each of the class `[ALPH]`.
unfoldable pub is_alph : ℕ → Bool
is_alph c = elim (position_of c alph) [ none ↦ false | some _ ↦ true ]

unfoldable pub matches_hash_re : Str → Bool
matches_hash_re (a ∷ b ∷ c ∷ []) =
    if is_alph a then (if is_alph b then is_alph c else false) else false
matches_hash_re _ = false

-- CANON_RE: a space, tab, carriage return or newline.
abbrev pub is_blank : ℕ → Bool
is_blank c = (c == 32) || (c == 9) || (c == 13) || (c == 10)

unfoldable pub canon : Str → Str
canon [] = []
canon (c ∷ s) = if is_blank c then canon s else c ∷ canon s

-- The bitset `Uint32Array(BITSET_WORDS)`: a word for each index of the array.
abbrev pub Bitset : Type 0
Bitset = ℕ → ℕ

unfoldable pub empty_bits : Bitset
empty_bits _ = 0

-- `w >>> k`.
unfoldable pub shift_right : ℕ → ℕ → ℕ
shift_right w zero = w
shift_right w (suc k) = shift_right (w / 2) k

-- `w | (1 << k)`, digit by digit.
unfoldable pub or_bit : ℕ → ℕ → ℕ
or_bit w zero = w - w % 2 + 1
or_bit w (suc k) = or_bit (w / 2) k * 2 + w % 2

unfoldable pub get_bit : Bitset → ℕ → Bool
get_bit bits idx = shift_right (bits (idx / 32)) (idx % 32) % 2 == 1

unfoldable pub set_bit : Bitset → ℕ → Bitset
set_bit bits idx w = if w == idx / 32 then or_bit (bits w) (idx % 32) else bits w

-- The loop of `nextZeroBit`; `none` is the error "probing failed over".
unfoldable pub probe : ℕ → Bitset → ℕ → Option ℕ
probe zero bits idx = none
probe (suc rounds) bits idx = elim (get_bit bits idx) [
  | false ↦ some idx
  | true ↦ probe rounds bits (
      if leb hash_space (idx + hash_probe_stride)
      then idx + hash_probe_stride - hash_space
      else idx + hash_probe_stride)
]

unfoldable pub next_zero_bit : Bitset → ℕ → Option ℕ
next_zero_bit bits start = probe hash_space bits (start % hash_space)

-- The state that the allocators mutate: `used` and `hint.value`.
pub record Pool : Type 0 where
  pub used : Bitset
  pub hint : ℕ

pub record Assigned : Type 0 where
  pub hash : Str
  pub pool : Pool

unfoldable pub assign_hash : Pool → ℕ → Option Assigned
assign_hash p base_idx =
    if get_bit p.used base_idx
    then elim (next_zero_bit p.used p.hint) [
      | none ↦ none
      | some next_idx ↦ some (record {
        hash = idx_to_hash next_idx;
        pool = record { used = set_bit p.used next_idx; hint = next_idx + hash_probe_stride };
      })
    ]
    else some (record {
      hash = idx_to_hash base_idx;
      pool = record { used = set_bit p.used base_idx; hint = base_idx + hash_probe_stride };
    })

unfoldable pub mark_hash_used : Bitset → Str → Bitset
mark_hash_used used hash = elim (hash_to_index hash) [ none ↦ used | some idx ↦ set_bit used idx ]

unfoldable pub mark_all : Bitset → List Str → Bitset
mark_all used [] = used
mark_all used (hash ∷ hashes) = mark_all (mark_hash_used used hash) hashes

-- What an allocator throws: AnchorSpaceExhaustedError with its two counts.
pub record Exhausted : Type 0 where
  pub retired_count : ℕ
  pub served_count : ℕ

pub data Allocation : Type 0 where
  allocated : List Str → Allocation
  exhausted : Exhausted → Allocation

-- `(xxh32(c) >>> 14) % HASH_SPACE` with the hash function as a parameter.
unfoldable pub base_index : (Str → ℕ) → Str → ℕ
base_index xxh32 line = xxh32 (canon line) % 2 ^ 32 / 2 ^ 14 % hash_space

-- The loop of `lineHashesPure`; `none` is the error of `nextZeroBit`.
unfoldable pub assign_all : (Str → ℕ) → Pool → List Str → Option (List Str)
assign_all xxh32 p [] = some []
assign_all xxh32 p (line ∷ lines) = elim (assign_hash p (base_index xxh32 line)) [
  | none ↦ none
  | some a ↦ elim (assign_all xxh32 a.pool lines) [
    | none ↦ none
    | some hashes ↦ some (a.hash ∷ hashes)
  ]
]

-- `rc = retiredCount ?? reservedHashes.size`.
abbrev pub or_else : Option ℕ → ℕ → ℕ
or_else none d = d
or_else (some n) d = n

-- The reserved set is the list of its members.
unfoldable pub line_hashes_pure : (Str → ℕ) → Str → List Str → Option ℕ → Option ℕ → Allocation
line_hashes_pure xxh32 content reserved retired_count served_count =
    elim (assign_all xxh32 (record { used = mark_all empty_bits reserved; hint = 0 })
      (split_lines content)) [
        | some hashes ↦ allocated hashes
        | none ↦ exhausted (record {
          retired_count = or_else retired_count (length reserved);
          served_count = or_else served_count 0;
        })
      ]
