-- ===== src/AnchorPipeline/Apply/Openings.antt =====
-- A lookup that finds no echo: no line opens with the anchor that was served at its position.
use dsh_better_edit.Prelude.{
  ℕ, zero, suc, ◌+◌, ◌-◌, ◌≡◌, ◌≢◌, refl, ap, ◌∙◌, true, Option, none, some, List, [], ◌∷◌, ◌++◌,
  Str, get_elem?, arith, Bool-cases, inl, inr, starts_with,
}
use dsh_better_edit.HashAssign.{hash_sep}
use dsh_better_edit.AnchorPipeline.Leases.{Slot, Echo, echoes, echo_loop, find_edit_hash_echo}
use dsh_better_edit.AnchorPipeline.Apply.{first_echo}

starts_with-append : (a b : Str) → starts_with (a ++ b) a ≡ true
unfolding starts_with
starts_with-append [] b = refl
starts_with-append (c ∷ a) b = ground (arith, starts_with-append a b)

-- A line that opens with an anchor and the separator echoes it.
echoes-opening :
    (line hash rest : Str) → line ≡ hash ++ hash_sep ∷ rest → echoes line (some (some hash)) ≡ true
echoes-opening line hash rest e =
    ap (λ t. starts_with t (hash ++ hash_sep ∷ [])) (e ∙ regroup hash)
    ∙ starts_with-append (hash ++ hash_sep ∷ []) rest
  where
    regroup : (h : Str) → h ++ hash_sep ∷ rest ≡ (h ++ hash_sep ∷ []) ++ rest
    regroup [] = refl
    regroup (c ∷ h) = ap (λ t. c ∷ t) (regroup h)

echo_loop-none :
    (lines : List Str) (served : List Slot) (pos j k : ℕ) (line hash rest : Str)
    → echo_loop lines served pos j ≡ none
    → get_elem? lines k ≡ some line
    → get_elem? served (pos + k) ≡ some (some hash)
    → line ≢ hash ++ hash_sep ∷ rest
unfolding echo_loop
echo_loop-none [] served pos j k line hash rest e at slot = cc
echo_loop-none (l ∷ lines) served pos j zero line hash rest e at slot = λ opens.
    let same : l ≡ line = cc in
    let here : get_elem? served pos ≡ some (some hash) =
      ap (get_elem? served) (omega arith) ∙ slot in
    let echoed : echoes l (get_elem? served pos) ≡ true =
      ap (echoes l) here ∙ echoes-opening l hash rest (same ∙ opens) in
    absurd (ground (arith, echoed, e))
echo_loop-none (l ∷ lines) served pos j (suc k) line hash rest e at slot =
    elim (Bool-cases (echoes l (get_elem? served pos))) [
      | inl echoed ↦ absurd (ground (arith, echoed, e))
      | inr silent ↦
          echo_loop-none lines served (suc pos) (suc j) k line hash rest (ground (arith, silent, e))
            at (ap (get_elem? served) (omega arith) ∙ slot)
    ]

first_echo-none : (a b : Option Echo) → first_echo a b ≡ none → a ≡ none
first_echo-none none b e = refl
first_echo-none (some x) b e = cc

-- No line opens with the anchor served at its position, where the first of two lookups finds nothing.
pub first_echo-opening :
    (lines : List Str) (served : List Slot) (start_line k : ℕ) (line hash rest : Str)
    (more : Option Echo)
    → first_echo (find_edit_hash_echo lines served start_line) more ≡ none
    → get_elem? lines k ≡ some line
    → get_elem? served (start_line - 1 + k) ≡ some (some hash)
    → line ≢ hash ++ hash_sep ∷ rest
unfolding find_edit_hash_echo
first_echo-opening lines served start_line k line hash rest more e at slot =
    echo_loop-none lines served (start_line - 1) 0 k line hash rest
      (first_echo-none (echo_loop lines served (start_line - 1) 0) more e) at slot
