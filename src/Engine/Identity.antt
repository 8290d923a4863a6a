-- ===== src/Engine/Identity.antt =====
-- Lines outside an applied item keep their identities, at their new places.
use dsh_better_edit.Prelude.{
  ℕ, ◌+◌, ◌-◌, ◌<◌, ◌≤◌, ◌≡◌, ◌≢◌, ap, sym, ◌∙◌, false, Option, none, some, List, ◌++◌, ltb, ltb→lt,
  if◌then◌else◌, Bool-cases, ◌⊎◌, inl, inr, length, length-take, get_elem?, get_elem?-lt, take,
  drop, replicate, arith, dec_lt,
}
use dsh_better_edit.Engine.{line_of, positions_from_ids, splice_working_buffer_ids}
use dsh_better_edit.Engine.Lookup.{
  StandsAt, line_of-absent, line_of-at, get_elem?-left, get_elem?-right, get_elem?-take,
  get_elem?-drop, get_elem?-nulls, length-replicate,
}

-- An item that replaces the lines `first` to `last` of the buffer, after which it has `count` lines.
module _ (ids : List (Option ℕ)) (first last count : ℕ) (first_pos : 1 ≤ first)
    (ordered : first ≤ last) (last_le : last ≤ length ids)
    (enough : length ids ≤ count + (last + 1 - first)) where
  abbrev spliced : List (Option ℕ)
  spliced = splice_working_buffer_ids ids first last count

  abbrev fresh : ℕ
  fresh = count + (last + 1 - first) - length ids

  before_length : length (take (first - 1) ids) ≡ first - 1
  before_length = omega (arith, length-take (first - 1) ids)

  read_before : (q : ℕ) → q < first - 1 → get_elem? spliced q ≡ get_elem? ids q
  unfolding splice_working_buffer_ids
  read_before q h =
      get_elem?-left (take (first - 1) ids) (replicate fresh none ++ drop last ids) q
        (omega (arith, before_length, h))
      ∙ get_elem?-take (first - 1) ids q h

  read_inside :
      (q a : ℕ) → first - 1 ≤ q → q < first - 1 + fresh → get_elem? spliced q ≢ some (some a)
  unfolding splice_working_buffer_ids
  read_inside q a h k e = get_elem?-nulls fresh (q - length (take (first - 1) ids)) a (
      sym (
        get_elem?-left (replicate fresh none) (drop last ids) (q - length (take (first - 1) ids))
          (omega (arith, before_length, length-replicate fresh, h, k)))
      ∙ sym (
          get_elem?-right (take (first - 1) ids) (replicate fresh none ++ drop last ids) q
            (omega (arith, before_length, h)))
      ∙ e)

  read_behind :
      (q : ℕ)
      → first - 1 + fresh ≤ q
      → get_elem? spliced q ≡ get_elem? ids (last + (q - (first - 1 + fresh)))
  unfolding splice_working_buffer_ids
  read_behind q h =
      get_elem?-right (take (first - 1) ids) (replicate fresh none ++ drop last ids) q
        (omega (arith, before_length, h))
      ∙ get_elem?-right (replicate fresh none) (drop last ids) (q - length (take (first - 1) ids))
          (omega (arith, before_length, length-replicate fresh, h))
      ∙ get_elem?-drop last ids
          (q - length (take (first - 1) ids) - length (replicate {A = Option ℕ} fresh none))
      ∙ ap (λ n. get_elem? ids (last + n)) (omega (arith, before_length, length-replicate fresh, h))

  -- Where a line of the old buffer is found, each place of the new one comes from one of the old.
  spliced-origin :
      (q a : ℕ)
      → get_elem? spliced q ≡ some (some a)
      → ((q < first - 1) × (get_elem? ids q ≡ some (some a)))
        ⊎ ((p : ℕ) × (last ≤ p)
            × (q ≡ first - 1 + fresh + (p - last))
            × (get_elem? ids p ≡ some (some a)))
  spliced-origin q a e = elim (dec_lt q (first - 1)) [
    | yes h ↦ inl (h, sym (read_before q h) ∙ e)
    | no h ↦ elim (dec_lt q (first - 1 + fresh)) [
      | yes k ↦ absurd (read_inside q a (omega arith) k e)
      | no k ↦ inr (
        last + (q - (first - 1 + fresh)),
        omega arith,
        omega arith,
        sym (read_behind q (omega arith)) ∙ e,
      )
    ]
  ]

  stays_before : (id p : ℕ) → StandsAt ids id p → p < first - 1 → StandsAt spliced id p
  stays_before id p (h, u) lt = (read_before p lt ∙ h, λ q e. from_origin q (spliced-origin q id e))
    where
      from_origin :
          (q : ℕ)
          → ((q < first - 1) × (get_elem? ids q ≡ some (some id)))
            ⊎ ((r : ℕ) × (last ≤ r)
                × (q ≡ first - 1 + fresh + (r - last))
                × (get_elem? ids r ≡ some (some id)))
          → q ≡ p
      from_origin q (inl (k, e)) = u q e
      from_origin q (inr (r, k, same, e)) = absurd (omega (arith, u r e))

  goes_inside :
      (id p : ℕ)
      → StandsAt ids id p
      → first - 1 ≤ p
      → p < last
      → (q : ℕ) → get_elem? spliced q ≢ some (some id)
  goes_inside id p (h, u) ge lt q e = from_origin (spliced-origin q id e)
    where
      from_origin :
          ((q < first - 1) × (get_elem? ids q ≡ some (some id)))
            ⊎ ((r : ℕ) × (last ≤ r)
                × (q ≡ first - 1 + fresh + (r - last))
                × (get_elem? ids r ≡ some (some id)))
          → ⊥
      from_origin (inl (k, f)) = absurd (omega (arith, u q f))
      from_origin (inr (r, k, same, f)) = absurd (omega (arith, u r f))

  moves_behind :
      (id p : ℕ)
      → StandsAt ids id p
      → last ≤ p
      → StandsAt spliced id (first - 1 + fresh + (p - last))
  moves_behind id p (h, u) ge = (
    read_behind (first - 1 + fresh + (p - last)) (omega arith) ∙ ap (get_elem? ids) (back p ge) ∙ h,
    λ q e. from_origin q (spliced-origin q id e),
  )
    where
      back : (a : ℕ) → last ≤ a → last + (first - 1 + fresh + (a - last) - (first - 1 + fresh)) ≡ a
      back a k = omega arith

      from_origin :
          (q : ℕ)
          → ((q < first - 1) × (get_elem? ids q ≡ some (some id)))
            ⊎ ((r : ℕ) × (last ≤ r)
                × (q ≡ first - 1 + fresh + (r - last))
                × (get_elem? ids r ≡ some (some id)))
          → q ≡ first - 1 + fresh + (p - last)
      from_origin q (inl (k, e)) = absurd (omega (arith, u q e))
      from_origin q (inr (r, k, same, e)) = omega (arith, u r e)

  -- Where the line with the index `p` is found after the item.
  abbrev pub moved_line : ℕ → Option ℕ
  moved_line p =
      if ltb p (first - 1)
      then some (p + 1)
      else if ltb p last
      then none
      else some (p + 1 + count - length ids)

  -- After an item that replaced the lines `first` to `last` of a buffer, and left it with `count` lines,
  -- the identity of a line, of which the buffer had only one, is found at its old number before the
  -- range, shifted by the change of length behind it, and nowhere for a line of the range.
  pub splice_working_buffer_ids-line_of :
      (id p : ℕ)
      → StandsAt ids id p
      → line_of id (positions_from_ids (splice_working_buffer_ids ids first last count))
        ≡ moved_line p
  unfolding positions_from_ids
  splice_working_buffer_ids-line_of id p h = elim (Bool-cases (ltb p (first - 1))) [
    | inl before ↦ rw before (
        line_of-at spliced 1 id p (stays_before id p h (ltb→lt p (first - 1) before))
        ∙ ap some (plus_one p))
    | inr not_before ↦ elim (Bool-cases (ltb p last)) [
      | inl within ↦
          rw (not_before, within)
            (line_of-absent spliced 1 id
              (goes_inside id p h (at_least p (first - 1) not_before) (ltb→lt p last within)))
      | inr behind ↦
          rw (not_before, behind)
            (line_of-at spliced 1 id (first - 1 + fresh + (p - last))
                (moves_behind id p h (at_least p last behind))
              ∙ ap some (counted_from (at_least p last behind) (get_elem?-lt ids p (some id) h.0)))
    ]
  ]
    where
      plus_one : (a : ℕ) → 1 + a ≡ a + 1
      plus_one a = omega arith

      at_least : (a b : ℕ) → ltb a b ≡ false → b ≤ a
      at_least a b e = ground arith

      counted_from :
          last ≤ p
          → p < length ids
          → 1 + (first - 1 + fresh + (p - last)) ≡ p + 1 + count - length ids
      counted_from k l = omega arith
