-- ===== src/Engine/Lookup.antt =====
-- Where an identity that stands once is found, and what the parts of a list hold.
use dsh_better_edit.Prelude.{
  ℕ, zero, suc, ◌+◌, ◌-◌, ◌<◌, ◌≤◌, ◌≡◌, ◌≢◌, refl, ap, ◌∙◌, Bool, true, false, Option, none, some,
  List, [], ◌∷◌, ◌++◌, ◌==◌, if◌then◌else◌, length, get_elem?, take, drop, replicate, arith,
}
use dsh_better_edit.Engine.{line_of, positions_from}

abbrev pub Ids : Type 0
Ids = List (Option ℕ)

-- The identity stands at the index and nowhere else.
abbrev pub StandsAt : List (Option ℕ) → ℕ → ℕ → Type 0
StandsAt ids id p =
    (get_elem? ids p ≡ some (some id)) × ((q : ℕ) → get_elem? ids q ≡ some (some id) → q ≡ p)

pub line_of-absent :
    (ids : Ids) (line id : ℕ)
    → ((q : ℕ) → get_elem? ids q ≢ some (some id))
    → line_of id (positions_from line ids) ≡ none
unfolding line_of positions_from
line_of-absent [] line id h = refl
line_of-absent (none ∷ ids) line id h = line_of-absent ids (suc line) id (λ q. h (suc q))
line_of-absent (some i ∷ ids) line id h =
    rw (line_of-absent ids (suc line) id (λ q. h (suc q))) (other (i == id) refl)
  where
    other : (b : Bool) → (i == id) ≡ b → (if b then some line else none) ≡ none
    other true e = absurd (h 0 (let same : i ≡ id = ground arith in ap (λ n. some (some n)) same))
    other false e = refl

pub line_of-at :
    (ids : Ids) (line id p : ℕ)
    → StandsAt ids id p
    → line_of id (positions_from line ids) ≡ some (line + p)
unfolding line_of positions_from
line_of-at [] line id p (h, u) = cc
line_of-at (none ∷ ids) line id zero (h, u) = cc
line_of-at (none ∷ ids) line id (suc p) (h, u) =
    line_of-at ids (suc line) id p (h, λ q e. pred_eq (u (suc q) e)) ∙ ap some (moved line p)
  where
    pred_eq : {a b : ℕ} → suc a ≡ suc b → a ≡ b
    pred_eq e = omega arith

    moved : (a b : ℕ) → suc a + b ≡ a + suc b
    moved a b = omega arith
line_of-at (some i ∷ ids) line id zero (h, u) =
    let same : i ≡ id = cc in
    rw (line_of-absent ids (suc line) id (λ q e. absurd (omega (arith, u (suc q) e))))
      (found same (i == id) refl)
  where
    found : i ≡ id → (b : Bool) → (i == id) ≡ b → (if b then some line else none) ≡ some (line + 0)
    found same true e = ap some (plus_zero line)
      where
        plus_zero : (a : ℕ) → a ≡ a + 0
        plus_zero a = omega arith
    found same false e = absurd (ground arith)
line_of-at (some i ∷ ids) line id (suc p) (h, u) =
    rw (line_of-at ids (suc line) id p (h, λ q e. pred_eq (u (suc q) e))) (ap some (moved line p))
  where
    pred_eq : {a b : ℕ} → suc a ≡ suc b → a ≡ b
    pred_eq e = omega arith

    moved : (a b : ℕ) → suc a + b ≡ a + suc b
    moved a b = omega arith

pub get_elem?-left : (xs ys : Ids) (q : ℕ) → q < length xs → get_elem? (xs ++ ys) q ≡ get_elem? xs q
get_elem?-left [] ys q h = elim h [ ]
get_elem?-left (x ∷ xs) ys zero h = refl
get_elem?-left (x ∷ xs) ys (suc q) h = get_elem?-left xs ys q (omega arith)

pub get_elem?-right :
    (xs ys : Ids) (q : ℕ) → length xs ≤ q → get_elem? (xs ++ ys) q ≡ get_elem? ys (q - length xs)
get_elem?-right [] ys q h = ap (get_elem? ys) (minus_zero q)
  where
    minus_zero : (n : ℕ) → n ≡ n - 0
    minus_zero n = omega arith
get_elem?-right (x ∷ xs) ys zero h = elim h [ ]
get_elem?-right (x ∷ xs) ys (suc q) h =
    get_elem?-right xs ys q (omega arith) ∙ ap (get_elem? ys) (dropped (length xs) q)
  where
    dropped : (a b : ℕ) → b - a ≡ suc b - suc a
    dropped a b = omega arith

pub get_elem?-take : (n : ℕ) (xs : Ids) (q : ℕ) → q < n → get_elem? (take n xs) q ≡ get_elem? xs q
get_elem?-take zero xs q h = elim h [ ]
get_elem?-take (suc n) [] q h = refl
get_elem?-take (suc n) (x ∷ xs) zero h = refl
get_elem?-take (suc n) (x ∷ xs) (suc q) h = get_elem?-take n xs q (omega arith)

pub get_elem?-drop : (n : ℕ) (xs : Ids) (q : ℕ) → get_elem? (drop n xs) q ≡ get_elem? xs (n + q)
get_elem?-drop zero xs q = ap (get_elem? xs) (zero_left q)
  where
    zero_left : (m : ℕ) → m ≡ 0 + m
    zero_left m = omega arith
get_elem?-drop (suc n) [] q = refl
get_elem?-drop (suc n) (x ∷ xs) q = get_elem?-drop n xs q ∙ ap (get_elem? (x ∷ xs)) (suc_left q)
  where
    suc_left : (m : ℕ) → suc (n + m) ≡ suc n + m
    suc_left m = omega arith

pub get_elem?-nulls : (n q : ℕ) (a : ℕ) → get_elem? (replicate n none) q ≢ some (some a)
get_elem?-nulls zero q a e = cc
get_elem?-nulls (suc n) zero a e = cc
get_elem?-nulls (suc n) (suc q) a e = get_elem?-nulls n q a e

pub length-replicate : (n : ℕ) → length (replicate {A = Option ℕ} n none) ≡ n
length-replicate zero = refl
length-replicate (suc n) = ap suc (length-replicate n)
