-- ===== src/Tests/Batches.antt =====
-- The identities of a buffer of five lines, of which an item replaces two by three.
use dsh_better_edit.Prelude.{
  ℕ, zero, suc, ◌≡◌, refl, Option, none, some, List, [], ◌∷◌, get_elem?, arith,
}
use dsh_better_edit.Engine.{splice_working_buffer_ids, positions_from_ids, line_of}
use dsh_better_edit.Engine.Lookup.{StandsAt}
use dsh_better_edit.Engine.Identity.{splice_working_buffer_ids-line_of}

abbrev ids : List (Option ℕ)
ids = some 10 ∷ some 11 ∷ none ∷ some 13 ∷ some 14 ∷ []

alone : StandsAt ids 14 4
alone = (refl, only)
  where
    only : (q : ℕ) → get_elem? ids q ≡ some (some 14) → q ≡ 4
    only zero e = cc
    only (suc zero) e = cc
    only (suc (suc zero)) e = cc
    only (suc (suc (suc zero))) e = cc
    only (suc (suc (suc (suc zero)))) e = refl
    only (suc (suc (suc (suc (suc q))))) e = cc

splice_working_buffer_ids-line_of_example :
    line_of 14 (positions_from_ids (splice_working_buffer_ids ids 2 3 6)) ≡ some 6
splice_working_buffer_ids-line_of_example =
    splice_working_buffer_ids-line_of ids 2 3 6 (omega arith) (omega arith) (omega arith)
      (omega arith) 14 4 alone
