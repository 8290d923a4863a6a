-- ===== src/Pairing/Pins.antt =====
-- The candidate pins of src/snapshot-store/pairing.ts: lines whose canonical hash occurs once on either side.
use dsh_better_edit.Prelude.{
  ℕ, suc, ◌+◌, ◌-◌, Bool, true, false, ◌&&◌, Option, none, some, List, [], ◌∷◌, Str, ◌==◌,
  if◌then◌else◌, str_eq, take, drop,
}

pub record AnchorPin : Type 0 where
  pub prev_line : ℕ
  pub curr_line : ℕ

-- The lines `first` to `last`, both counted from 1; none if `last` comes before `first`.
abbrev pub interval : List Str → ℕ → ℕ → List Str
interval lines first last = take (last + 1 - first) (drop (first - 1) lines)

-- `counts.get(key)`, with 0 for a missing key.
unfoldable pub count_key : Str → List Str → ℕ
count_key key [] = 0
count_key key (k ∷ ks) = (if str_eq k key then 1 else 0) + count_key key ks

-- `currPositions.get(key)`, the last position with the key; `c` is the number of the first line.
unfoldable pub last_position : Str → ℕ → List Str → Option ℕ
last_position key c [] = none
last_position key c (k ∷ ks) = elim (last_position key (suc c) ks) [
  | some later ↦ some later
  | none ↦ if str_eq k key then some c else none
]

abbrev pub pin_of : ℕ → Bool → Option ℕ → List AnchorPin → List AnchorPin
pin_of p once none rest = rest
pin_of p false (some c) rest = rest
pin_of p true (some c) rest = record { prev_line = p; curr_line = c } ∷ rest

-- The pins of the lines from number `p` on.
unfoldable pub pins_from : List Str → List Str → ℕ → ℕ → List Str → List AnchorPin
pins_from prev_keys curr_keys c_start p [] = []
pins_from prev_keys curr_keys c_start p (key ∷ keys) =
    pin_of p ((count_key key prev_keys == 1) && (count_key key curr_keys == 1))
      (last_position key c_start curr_keys) (pins_from prev_keys curr_keys c_start (suc p) keys)

unfoldable pub find_unique_pins : List Str → List Str → ℕ → ℕ → ℕ → ℕ → List AnchorPin
find_unique_pins prev_lines curr_lines p_start p_end c_start c_end =
    let prev_keys = interval prev_lines p_start p_end in
    pins_from prev_keys (interval curr_lines c_start c_end) c_start p_start prev_keys
