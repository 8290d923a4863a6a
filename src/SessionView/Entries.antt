-- ===== src/SessionView/Entries.antt =====
-- The members of the lists that `sweepAndRetire` builds (src/session-view.ts).
use mathlib.Core.Path.{subst}
use dsh_better_edit.Prelude.{
  ℕ, suc, ◌+◌, zero, ◌≡◌, ◌↔◌, ◌⊎◌, refl, ap, sym, ◌∙◌, true, false, Option, none, some, List, [],
  ◌∷◌, ◌++◌, Str, ◌==◌, map, arith, Bool-cases, inl, inr, has, get_elem?, Member, Member-append,
}
use dsh_better_edit.AnchorPipeline.Leases.{Slot}
use dsh_better_edit.SessionView.{
  ServedEntry, RetiredEntry, slot_hashes, displaced_from, has_card, is_swept, sweep, add_cards,
  hash_of, without_known,
}

pub has_card-Member : (p : ℕ) (cards : List ℕ) → (has_card p cards ≡ true) ↔ Member p cards
unfolding has_card
has_card-Member p [] = (λ e. cc, λ m. absurd m)
has_card-Member p (c ∷ cards) = (
  λ e. elim (Bool-cases (p == c)) [
    | inl same ↦ inl (ground (arith, same))
    | inr other ↦ inr ((has_card-Member p cards).0 (ground (arith, other, e)))
  ],
  λ m. elim m [
    | inl same ↦ ground (arith, same)
    | inr later ↦ ground (arith, (has_card-Member p cards).1 later)
  ],
)

pub add_cards-Member :
    (p : ℕ) (rows : List ServedEntry) (cards : List ℕ)
    → Member p (add_cards rows cards)
      ↔ (Member p cards ⊎ ((r : ServedEntry) × Member r rows × (r.position ≡ p)))
unfolding add_cards
add_cards-Member p [] cards = (inl, λ m. elim m [ inl h ↦ h | inr (r, h, e) ↦ absurd h ])
add_cards-Member p (r ∷ rows) cards = elim (Bool-cases (has_card r.position cards)) [
  | inl known ↦ rw known (
    (λ m. elim ((add_cards-Member p rows cards).0 m) [
      | inl h ↦ inl h
      | inr (q, h, e) ↦ inr (q, inr h, e)
    ]),
    λ m. elim m [
      | inl h ↦ (add_cards-Member p rows cards).1 (inl h)
      | inr (q, inl same, e) ↦ (add_cards-Member p rows cards).1 (
          inl (
            subst (λ x. Member x cards) (sym (ap (λ (x : ServedEntry). x.position) same) ∙ e)
              ((has_card-Member r.position cards).0 known)))
      | inr (q, inr h, e) ↦ (add_cards-Member p rows cards).1 (inr (q, h, e))
    ],
  )
  | inr new ↦ rw new (
    (λ m. elim ((add_cards-Member p rows (cards ++ r.position ∷ [])).0 m) [
      | inl h ↦ elim ((Member-append p cards (r.position ∷ [])).0 h) [
        | inl k ↦ inl k
        | inr (inl e) ↦ inr (r, inl refl, sym e)
        | inr (inr k) ↦ absurd k
      ]
      | inr (q, h, e) ↦ inr (q, inr h, e)
    ]),
    λ m. elim m [
      | inl h ↦
          (add_cards-Member p rows (cards ++ r.position ∷ [])).1
            (inl ((Member-append p cards (r.position ∷ [])).1 (inl h)))
      | inr (q, inl same, e) ↦ (add_cards-Member p rows (cards ++ r.position ∷ [])).1 (
          inl (
            (Member-append p cards (r.position ∷ [])).1
              (inr (inl (sym e ∙ ap (λ (x : ServedEntry). x.position) same)))))
      | inr (q, inr h, e) ↦ (add_cards-Member p rows (cards ++ r.position ∷ [])).1 (inr (q, h, e))
    ],
  )
]

pub sweep-Member :
    (cards : List ℕ) (e : RetiredEntry) (entries : List RetiredEntry)
    → Member e (sweep cards entries) ↔ (Member e entries × (is_swept cards e.death_pos ≡ false))
unfolding sweep
sweep-Member cards e [] = (λ m. absurd m, λ m. absurd m.0)
sweep-Member cards e (x ∷ entries) = elim (Bool-cases (is_swept cards x.death_pos)) [
  | inl gone ↦ rw gone (
    (λ m. let h = (sweep-Member cards e entries).0 m in (inr h.0, h.1)),
    λ m. elim (m.0) [
      | inl same ↦ absurd (
          let now : is_swept cards x.death_pos ≡ false =
            ap (λ (t : RetiredEntry). is_swept cards t.death_pos) (sym same) ∙ m.1 in
          cc)
      | inr h ↦ (sweep-Member cards e entries).1 (h, m.1)
    ],
  )
  | inr stays ↦ rw stays (
    (λ m. elim m [
      | inl same ↦ (inl same, ap (λ (t : RetiredEntry). is_swept cards t.death_pos) same ∙ stays)
      | inr h ↦ (let k = (sweep-Member cards e entries).0 h in (inr k.0, k.1))
    ]),
    λ m. elim (m.0) [
      | inl same ↦ inl same
      | inr h ↦ inr ((sweep-Member cards e entries).1 (h, m.1))
    ],
  )
]

pub without_known-Member :
    (known : List Str) (e : RetiredEntry) (entries : List RetiredEntry)
    → Member e (without_known known entries) ↔ (Member e entries × (has e.hash known ≡ false))
unfolding without_known
without_known-Member known e [] = (λ m. absurd m, λ m. absurd m.0)
without_known-Member known e (x ∷ entries) = elim (Bool-cases (has x.hash known)) [
  | inl gone ↦ rw gone (
    (λ m. let h = (without_known-Member known e entries).0 m in (inr h.0, h.1)),
    λ m. elim (m.0) [
      | inl same ↦ absurd (
          let now : has x.hash known ≡ false =
            ap (λ (t : RetiredEntry). has t.hash known) (sym same) ∙ m.1 in
          cc)
      | inr h ↦ (without_known-Member known e entries).1 (h, m.1)
    ],
  )
  | inr stays ↦ rw stays (
    (λ m. elim m [
      | inl same ↦ (inl same, ap (λ (t : RetiredEntry). has t.hash known) same ∙ stays)
      | inr h ↦ (let k = (without_known-Member known e entries).0 h in (inr k.0, k.1))
    ]),
    λ m. elim (m.0) [
      | inl same ↦ inl same
      | inr h ↦ inr ((without_known-Member known e entries).1 (h, m.1))
    ],
  )
]

-- An anchor of the slots that is not among the remaining ones, with its position.
unfoldable pub IsDisplaced : ℕ → List Slot → List Str → RetiredEntry → Type 0
IsDisplaced i slots remaining e =
    (p : ℕ) × (get_elem? slots p ≡ some (some e.hash))
    × (e.death_pos ≡ some (i + p))
    × (has e.hash remaining ≡ false)

IsDisplaced-suc :
    (i : ℕ) (s : Slot) (slots : List Slot) (remaining : List Str) (e : RetiredEntry)
    → IsDisplaced (suc i) slots remaining e
    → IsDisplaced i (s ∷ slots) remaining e
unfolding IsDisplaced
IsDisplaced-suc i s slots remaining e (p, at, dead, out) =
    (suc p, at, dead ∙ ap (λ n. some n) (omega arith), out)

IsDisplaced-pred :
    (i : ℕ) (slots : List Slot) (remaining : List Str) (e : RetiredEntry)
    → IsDisplaced i (none ∷ slots) remaining e
    → IsDisplaced (suc i) slots remaining e
unfolding IsDisplaced
IsDisplaced-pred i slots remaining e (zero, at, dead, out) = cc
IsDisplaced-pred i slots remaining e (suc p, at, dead, out) =
    (p, at, dead ∙ ap (λ n. some n) (omega arith), out)

entry_ext :
    (e : RetiredEntry) (h : Str) (d : Option ℕ)
    → e.hash ≡ h
    → e.death_pos ≡ d
    → e ≡ record { hash = h; death_pos = d }
entry_ext e h d a b =
    ap (λ (x : Str). record { hash = x; death_pos = e.death_pos }) a
    ∙ ap (λ (x : Option ℕ). record { hash = h; death_pos = x }) b

-- Displaced from the first slot, or from the others.
IsDisplaced-cases :
    (i : ℕ) (h : Str) (slots : List Slot) (remaining : List Str) (e : RetiredEntry)
    → IsDisplaced i (some h ∷ slots) remaining e
    → ((e ≡ record { hash = h; death_pos = some i }) × (has h remaining ≡ false))
      ⊎ IsDisplaced (suc i) slots remaining e
unfolding IsDisplaced
IsDisplaced-cases i h slots remaining e (zero, at, dead, out) =
    let same : h ≡ e.hash = cc in
    inl (
      entry_ext e h (some i) (sym same) (dead ∙ ap (λ n. some n) (omega arith)),
      ap (λ x. has x remaining) same ∙ out,
    )
IsDisplaced-cases i h slots remaining e (suc p, at, dead, out) =
    inr (p, at, dead ∙ ap (λ n. some n) (omega arith), out)

pub displaced_from-Member :
    (i : ℕ) (slots : List Slot) (remaining : List Str) (e : RetiredEntry)
    → Member e (displaced_from i slots remaining) ↔ IsDisplaced i slots remaining e
unfolding displaced_from IsDisplaced
displaced_from-Member i [] remaining e = (λ m. absurd m, λ m. let at = m.1 in cc)
displaced_from-Member i (none ∷ slots) remaining e = (
  λ m.
      IsDisplaced-suc i none slots remaining e
        ((displaced_from-Member (suc i) slots remaining e).0 m),
  λ m. (displaced_from-Member (suc i) slots remaining e).1 (IsDisplaced-pred i slots remaining e m),
)
displaced_from-Member i (some h ∷ slots) remaining e = elim (Bool-cases (has h remaining)) [
  | inl stays ↦ rw stays (
    (λ m.
        IsDisplaced-suc i (some h) slots remaining e
          ((displaced_from-Member (suc i) slots remaining e).0 m)),
    λ m. elim (IsDisplaced-cases i h slots remaining e m) [
      | inl (same, out) ↦ absurd cc
      | inr later ↦ (displaced_from-Member (suc i) slots remaining e).1 later
    ],
  )
  | inr gone ↦ rw gone (
    (λ m. elim m [
      | inl same ↦ (
        0,
        ap (λ (t : RetiredEntry). some (some t.hash)) (sym same),
        ap (λ (t : RetiredEntry). t.death_pos) same ∙ ap (λ n. some n) (omega arith),
        ap (λ (t : RetiredEntry). has t.hash remaining) same ∙ gone,
      )
      | inr later ↦
          IsDisplaced-suc i (some h) slots remaining e
            ((displaced_from-Member (suc i) slots remaining e).0 later)
    ]),
    λ m. elim (IsDisplaced-cases i h slots remaining e m) [
      | inl (same, out) ↦ inl same
      | inr later ↦ inr ((displaced_from-Member (suc i) slots remaining e).1 later)
    ],
  )
]

pub slot_hashes-Member :
    (h : Str) (slots : List Slot) → Member h (slot_hashes slots) ↔ Member (some h) slots
unfolding slot_hashes
slot_hashes-Member h [] = (λ m. m, λ m. m)
slot_hashes-Member h (none ∷ slots) = (
  λ m. inr ((slot_hashes-Member h slots).0 m),
  λ m. elim m [ inl e ↦ absurd cc | inr k ↦ (slot_hashes-Member h slots).1 k ],
)
slot_hashes-Member h (some g ∷ slots) = (
  λ m. elim m [ inl e ↦ inl (ap (λ x. some x) e) | inr k ↦ inr ((slot_hashes-Member h slots).0 k) ],
  λ m. elim m [
    | inl e ↦ inl (let same : h ≡ g = cc in same)
    | inr k ↦ inr ((slot_hashes-Member h slots).1 k)
  ],
)

pub hash_of-Member :
    (h : Str) (entries : List RetiredEntry)
    → Member h (map hash_of entries) ↔ ((e : RetiredEntry) × Member e entries × (e.hash ≡ h))
hash_of-Member h [] = (λ m. absurd m, λ m. absurd m.1)
hash_of-Member h (x ∷ entries) = (
  λ m. elim m [
    | inl same ↦ (x, inl refl, sym same)
    | inr k ↦ (let r = (hash_of-Member h entries).0 k in (r.0, inr r.1, r.2))
  ],
  λ m. elim (m.1) [
    | inl same ↦ inl (sym m.2 ∙ ap hash_of same)
    | inr k ↦ inr ((hash_of-Member h entries).1 (m.0, k, m.2))
  ],
)
