-- ===== src/SessionView/Retire.antt =====
-- Which entries are retired, and which positions have a card, after `sweepAndRetire`.
use dsh_better_edit.Prelude.{
  ℕ, ◌≡◌, ◌≢◌, ◌↔◌, ◌⊎◌, refl, ap, sym, ◌∙◌, true, false, Option, none, some, List, map, arith,
  Bool-cases, inl, inr, get_elem?, Member, Member-append, has-NotMember,
}
use dsh_better_edit.AnchorPipeline.Leases.{Slot}
use dsh_better_edit.SessionView.{
  ServedEntry, RetiredEntry, Books, slot_hashes, displaced_from, displaced_entries, has_card,
  is_swept, sweep, add_cards, hash_of, without_known, sweep_and_retire,
}
use dsh_better_edit.SessionView.Entries.{
  has_card-Member, add_cards-Member, sweep-Member, without_known-Member, displaced_from-Member,
  slot_hashes-Member, hash_of-Member, IsDisplaced,
}

-- A position has a card, of an earlier call or of these rows.
abbrev pub IsObserved : List ℕ → List ServedEntry → ℕ → Type 0
IsObserved cards rows p = Member p cards ⊎ ((r : ServedEntry) × Member r rows × (r.position ≡ p))

-- An entry that stays: its position is unknown or was not observed.
abbrev pub IsHeld : Books → List ServedEntry → RetiredEntry → Type 0
IsHeld b rows e =
    Member e b.retired × ((p : ℕ) → e.death_pos ≡ some p → ¬ (IsObserved b.cards rows p))

-- An entry that is new: its anchor stood at its position, stands nowhere any more, and had no entry.
abbrev pub IsNew : Books → List Slot → List Slot → RetiredEntry → Type 0
IsNew b current updated e =
    ((p : ℕ) × (e.death_pos ≡ some p) × (get_elem? current p ≡ some (some e.hash)))
    × (¬ (Member (some e.hash) updated))
    × ((old : RetiredEntry) → Member old b.retired → old.hash ≢ e.hash)

is_swept-IsObserved :
    (cards : List ℕ) (rows : List ServedEntry) (d : Option ℕ)
    → (is_swept (add_cards rows cards) d ≡ false)
      ↔ ((p : ℕ) → d ≡ some p → ¬ (IsObserved cards rows p))
is_swept-IsObserved cards rows none = (λ e p f. cc, λ f. refl)
is_swept-IsObserved cards rows (some d) = (
  λ e p f o.
      let same : p ≡ d = cc in
      let there : has_card p (add_cards rows cards) ≡ true =
        (has_card-Member p (add_cards rows cards)).1 ((add_cards-Member p rows cards).1 o) in
      let here : has_card d (add_cards rows cards) ≡ true =
        ap (λ x. has_card x (add_cards rows cards)) (sym same) ∙ there in
      cc,
  λ f. elim (Bool-cases (has_card d (add_cards rows cards))) [
    | inl found ↦ absurd (
        f d refl
          ((add_cards-Member d rows cards).0 ((has_card-Member d (add_cards rows cards)).0 found)))
    | inr missing ↦ missing
  ],
)

-- The new entries of `sweepAndRetire`.
displaced-IsNew :
    (b : Books) (current updated : List Slot) (e : RetiredEntry)
    → Member e (without_known (map hash_of b.retired) (displaced_entries current updated))
      ↔ IsNew b current updated e
unfolding displaced_entries IsDisplaced
displaced-IsNew b current updated e =
    let known = map hash_of b.retired in
    let displaced = displaced_from 0 current (slot_hashes updated) in
    (
      λ m.
          let h = (without_known-Member known e displaced).0 m in
          let d = (displaced_from-Member 0 current (slot_hashes updated) e).0 h.0 in
          (
            (d.0, d.2 ∙ ap (λ n. some n) (omega arith), d.1),
            (λ k.
                (has-NotMember e.hash (slot_hashes updated)).0 d.3
                  ((slot_hashes-Member e.hash updated).1 k)),
            (λ old k same.
                (has-NotMember e.hash known).0 h.1
                  ((hash_of-Member e.hash b.retired).1 (old, k, same))),
          ),
      λ m. (without_known-Member known e displaced).1 (
        (displaced_from-Member 0 current (slot_hashes updated) e).1 (
          m.0.0,
          m.0.2,
          m.0.1 ∙ ap (λ n. some n) (omega arith),
          (has-NotMember e.hash (slot_hashes updated)).1
              (λ k. m.1 ((slot_hashes-Member e.hash updated).0 k)),
        ),
        (has-NotMember e.hash known).1
            (λ k. let r = (hash_of-Member e.hash b.retired).0 k in m.2 r.0 r.1 r.2),
      ),
    )

-- After `sweepAndRetire` the retired entries are those that there were, except where an entry's position
-- is known and has a card of an earlier call or of these rows, and one for each position of the old mirror
-- whose anchor stands nowhere in the new one and had no entry.
pub sweep_and_retire-Member :
    (b : Books) (current updated : List Slot) (rows : List ServedEntry) (e : RetiredEntry)
    → Member e (sweep_and_retire b current updated rows).retired
      ↔ (IsHeld b rows e ⊎ IsNew b current updated e)
unfolding sweep_and_retire
sweep_and_retire-Member b current updated rows e =
    let cards = add_cards rows b.cards in
    let kept = sweep cards b.retired in
    let more = without_known (map hash_of b.retired) (displaced_entries current updated) in
    (
      λ m. elim ((Member-append e kept more).0 m) [
        | inl h ↦
            (let k = (sweep-Member cards e b.retired).0 h in
              inl (k.0, (is_swept-IsObserved b.cards rows e.death_pos).0 k.1))
        | inr h ↦ inr ((displaced-IsNew b current updated e).0 h)
      ],
      λ m. (Member-append e kept more).1 (elim m [
        | inl h ↦ inl (
            (sweep-Member cards e b.retired).1
              (h.0, (is_swept-IsObserved b.cards rows e.death_pos).1 h.1))
        | inr h ↦ inr ((displaced-IsNew b current updated e).1 h)
      ]),
    )

-- After `sweepAndRetire` the positions with a card are those that had one and those of the rows.
pub sweep_and_retire-IsObserved :
    (b : Books) (current updated : List Slot) (rows : List ServedEntry) (p : ℕ)
    → Member p (sweep_and_retire b current updated rows).cards ↔ IsObserved b.cards rows p
unfolding sweep_and_retire
sweep_and_retire-IsObserved b current updated rows p = add_cards-Member p rows b.cards
