-- ===== src/ServedGuard/Tiers.antt =====
-- What the two tiers report: one the lines that open with a served anchor and another text, the other
-- those that open with an anchor that was never served.
use dsh_better_edit.Prelude.{ℕ, suc, ◌+◌, ◌≡◌, ◌≢◌, Option, some, List, Str, get_elem?}
use dsh_better_edit.HashAssign.{canon}
use dsh_better_edit.ServedGuard.{Mismatch, NeverServed}
use dsh_better_edit.ServedGuard.Openings.{IsOpening, IsServedAt}

-- The line at `index` opens with the anchor, and is counted as the `k`-th and as the line `line`.
abbrev pub IsReported : List Str → ℕ → ℕ → ℕ → Str → Str → Type 0
IsReported lines start k line anchor tail =
    (index : ℕ) × (text : Str) × (get_elem? lines index ≡ some text)
    × (k ≡ suc index)
    × (line ≡ start + index)
    × IsOpening text anchor tail

-- A reported line opens with an anchor that was served at the reported line with some canon, and no canon
-- recorded for that anchor is the one of the rest of the line.
abbrev pub OpensServed : List Str → List (Option Str) → List (Option Str) → ℕ → Mismatch → Type 0
OpensServed lines served canons start m =
    (tail : Str) × IsReported lines start m.k m.line m.anchor tail
    × ((q : ℕ) × (c : Str) × (m.served_line ≡ suc q) × IsServedAt m.anchor served canons q c)
    × ((q : ℕ) (c : Str) → IsServedAt m.anchor served canons q c → c ≢ canon tail)

-- A reported line opens with an anchor that stands nowhere in the mirror.
abbrev pub OpensUnserved : List Str → List (Option Str) → ℕ → NeverServed → Type 0
OpensUnserved lines served start n =
    (tail : Str) × IsReported lines start n.k n.line n.anchor tail
    × ((q : ℕ) → get_elem? served q ≢ some (some n.anchor))

module _ (all : List Str) (served canons : List (Option Str)) (start : ℕ) where
  -- What a loop over the lines from `index` on sees is what the whole list holds there.
  abbrev StandsAt : List Str → ℕ → Type 0
  StandsAt lines index =
      (i : ℕ) (t : Str) → get_elem? lines i ≡ some t → get_elem? all (index + i) ≡ some t
