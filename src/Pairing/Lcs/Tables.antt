-- ===== src/Pairing/Lcs/Tables.antt =====
-- The recurrences that the cells of the two tables satisfy.
use dsh_better_edit.Prelude.{
  ℕ, zero, suc, ◌+◌, ◌<◌, ◌≤◌, ◌≡◌, refl, ◌⊎◌, inl, inr, List, [], ◌∷◌, Str, if◌then◌else◌, str_eq,
  get_or, drop, length, replicate, max, arith,
}
use dsh_better_edit.Pairing.Lcs.{suffix_row, suffix_table, at, count_cell, count_row, count_table}

get_or-drop_one {ℓ} :
    {A : Type ℓ} (xs : List A) (j : ℕ) (d : A) → get_or (drop 1 xs) j d ≡ get_or xs (suc j) d
get_or-drop_one [] j d = refl
get_or-drop_one (x ∷ xs) j d = refl

get_or-replicate {ℓ} : {A : Type ℓ} (n j : ℕ) (d : A) → get_or (replicate n d) j d ≡ d
get_or-replicate zero j d = refl
get_or-replicate (suc n) zero d = refl
get_or-replicate (suc n) (suc j) d = get_or-replicate n j d

get_or-replicate_inside {ℓ} :
    {A : Type ℓ} (n j : ℕ) (a d : A) → j < n → get_or (replicate n a) j d ≡ a
get_or-replicate_inside zero j a d h = elim h [ ]
get_or-replicate_inside (suc n) zero a d h = refl
get_or-replicate_inside (suc n) (suc j) a d h = get_or-replicate_inside n j a d (omega arith)

suffix_row-end :
    (key : Str) (cs : List Str) (below : List ℕ) (j : ℕ)
    → length cs ≤ j
    → get_or (suffix_row key cs below) j 0 ≡ 0
unfolding suffix_row
suffix_row-end key [] below zero h = refl
suffix_row-end key [] below (suc j) h = refl
suffix_row-end key (c ∷ cs) below zero h = elim h [ ]
suffix_row-end key (c ∷ cs) below (suc j) h = suffix_row-end key cs (drop 1 below) j (omega arith)

suffix_row-step :
    (key : Str) (cs : List Str) (below : List ℕ) (j : ℕ)
    → j < length cs
    → get_or (suffix_row key cs below) j 0 ≡ (
        if str_eq key (get_or cs j [])
        then get_or below (suc j) 0 + 1
        else max (get_or below j 0) (get_or (suffix_row key cs below) (suc j) 0))
unfolding suffix_row
suffix_row-step key [] below j h = elim h [ ]
suffix_row-step key (c ∷ cs) below zero h = refl
suffix_row-step key (c ∷ cs) below (suc j) h =
    rw (← get_or-drop_one below (suc j) 0, ← get_or-drop_one below j 0)
      (suffix_row-step key cs (drop 1 below) j (omega arith))

-- A cell inside the table of suffix lengths.
pub suffix_table-step :
    (ps cs : List Str) (i j : ℕ)
    → i < length ps
    → j < length cs
    → at (suffix_table ps cs) i j ≡ (
        if str_eq (get_or ps i []) (get_or cs j [])
        then at (suffix_table ps cs) (suc i) (suc j) + 1
        else max (at (suffix_table ps cs) (suc i) j) (at (suffix_table ps cs) i (suc j)))
unfolding suffix_table
suffix_table-step [] cs i j h k = elim h [ ]
suffix_table-step (p ∷ ps) cs zero j h k =
    suffix_row-step p cs (get_or (suffix_table ps cs) 0 []) j k
suffix_table-step (p ∷ ps) cs (suc i) j h k = suffix_table-step ps cs i j (omega arith) k

-- The last row and the last column are 0.
pub suffix_table-end :
    (ps cs : List Str) (i j : ℕ)
    → (length ps ≤ i) ⊎ (length cs ≤ j)
    → at (suffix_table ps cs) i j ≡ 0
unfolding suffix_table
suffix_table-end [] cs zero j h = get_or-replicate (length cs + 1) j 0
suffix_table-end [] cs (suc i) j h = refl
suffix_table-end (p ∷ ps) cs zero j (inl h) = elim h [ ]
suffix_table-end (p ∷ ps) cs zero j (inr h) =
    suffix_row-end p cs (get_or (suffix_table ps cs) 0 []) j h
suffix_table-end (p ∷ ps) cs (suc i) j (inl h) = suffix_table-end ps cs i j (inl (omega arith))
suffix_table-end (p ∷ ps) cs (suc i) j (inr h) = suffix_table-end ps cs i j (inr h)

count_row-end :
    (key : Str) (cs : List Str) (sfx sfx_below below : List ℕ)
    → get_or (count_row key cs sfx sfx_below below) (length cs) 0 ≡ 1
unfolding count_row
count_row-end key [] sfx sfx_below below = refl
count_row-end key (c ∷ cs) sfx sfx_below below =
    count_row-end key cs (drop 1 sfx) (drop 1 sfx_below) (drop 1 below)

count_row-step :
    (key : Str) (cs : List Str) (sfx sfx_below below : List ℕ) (j : ℕ)
    → j < length cs
    → get_or (count_row key cs sfx sfx_below below) j 0
      ≡ count_cell
          (str_eq key (get_or cs j []))
          (get_or sfx j 0)
          (get_or sfx_below (suc j) 0)
          (get_or sfx_below j 0)
          (get_or sfx (suc j) 0)
          (get_or below (suc j) 0)
          (get_or below j 0)
          (get_or (count_row key cs sfx sfx_below below) (suc j) 0)
unfolding count_row
count_row-step key [] sfx sfx_below below j h = elim h [ ]
count_row-step key (c ∷ cs) sfx sfx_below below zero h = refl
count_row-step key (c ∷ cs) sfx sfx_below below (suc j) h =
    rw
      (
        ← get_or-drop_one below (suc j) 0,
        ← get_or-drop_one below j 0,
        ← get_or-drop_one sfx (suc j) 0,
        ← get_or-drop_one sfx j 0,
        ← get_or-drop_one sfx_below (suc j) 0,
        ← get_or-drop_one sfx_below j 0,
      )
      (count_row-step key cs (drop 1 sfx) (drop 1 sfx_below) (drop 1 below) j (omega arith))

-- A cell inside the table of counts.
pub count_table-step :
    (ps cs : List Str) (sfx : List (List ℕ)) (i j : ℕ)
    → i < length ps
    → j < length cs
    → at (count_table ps cs sfx) i j
      ≡ count_cell
          (str_eq (get_or ps i []) (get_or cs j []))
          (at sfx i j)
          (at sfx (suc i) (suc j))
          (at sfx (suc i) j)
          (at sfx i (suc j))
          (at (count_table ps cs sfx) (suc i) (suc j))
          (at (count_table ps cs sfx) (suc i) j)
          (at (count_table ps cs sfx) i (suc j))
unfolding count_table
count_table-step [] cs sfx i j h k = elim h [ ]
count_table-step (p ∷ ps) cs sfx zero j h k =
    count_row-step p cs (get_or sfx 0 []) (get_or sfx 1 [])
      (get_or (count_table ps cs (drop 1 sfx)) 0 []) j k
count_table-step (p ∷ ps) cs sfx (suc i) j h k =
    rw (← get_or-drop_one sfx (suc i) [], ← get_or-drop_one sfx i [])
      (count_table-step ps cs (drop 1 sfx) i j (omega arith) k)

-- The last row and the last column are 1.
pub count_table-last_row :
    (ps cs : List Str) (sfx : List (List ℕ)) (j : ℕ)
    → j ≤ length cs
    → at (count_table ps cs sfx) (length ps) j ≡ 1
unfolding count_table
count_table-last_row [] cs sfx j h = get_or-replicate_inside (length cs + 1) j 1 0 (omega arith)
count_table-last_row (p ∷ ps) cs sfx j h = count_table-last_row ps cs (drop 1 sfx) j h

pub count_table-last_column :
    (ps cs : List Str) (sfx : List (List ℕ)) (i : ℕ)
    → i ≤ length ps
    → at (count_table ps cs sfx) i (length cs) ≡ 1
unfolding count_table
count_table-last_column [] cs sfx zero h =
    get_or-replicate_inside (length cs + 1) (length cs) 1 0 (omega arith)
count_table-last_column [] cs sfx (suc i) h = elim h [ ]
count_table-last_column (p ∷ ps) cs sfx zero h =
    count_row-end p cs (get_or sfx 0 []) (get_or sfx 1 [])
      (get_or (count_table ps cs (drop 1 sfx)) 0 [])
count_table-last_column (p ∷ ps) cs sfx (suc i) h =
    count_table-last_column ps cs (drop 1 sfx) i (omega arith)
