-- ===== src/Common/Sort.antt =====
-- ORDER BY, `sorted` and `min`: a stable insertion sort by a strict order on the rows.
use Prim.Native.Nat.{ℕ, zero, suc, ◌≤◌}
use mathlib.Core.Path.{◌≡◌, refl}
use mathlib.Core.Logic.{inl, inr}
use mathlib.Core.Bool.{Bool, true, false, ◌&&◌, ◌||◌}
use mathlib.Core.Option.{Option, none, some}
use mathlib.Core.List.{List, [], ◌∷◌, ◌++◌, map}
use native.Mathlib.Omega.{arith}
use lance_etl.Common.Tests.{if◌then◌else◌, Bool-cases, ltb, ◌==◌}
use lance_etl.Common.Lists.{All, All-map, length, take}
use lance_etl.Common.Results.{Option-cases}
use lance_etl.Common.Rows.{select, exists_row, find_row}

module _ {A : Type 0} (before : A → A → Bool) where
  -- A row goes before the first one that does not precede it.
  abbrev pub insert_by : A → List A → List A
  insert_by x [] = x ∷ []
  insert_by x (y ∷ ys) = let later = y ∷ insert_by x ys in if before y x then later else x ∷ y ∷ ys

  abbrev pub sort_by : List A → List A
  sort_by [] = []
  sort_by (x ∷ xs) = insert_by x (sort_by xs)

  pub All-insert_by :
      (P : A → Type 0) (x : A) (xs : List A) → P x → All P xs → All P (insert_by x xs)
  All-insert_by P x [] p h = (p, tt)
  All-insert_by P x (y ∷ ys) p h = elim (Bool-cases (before y x)) [
    | inl e ↦ rw e (h.0, All-insert_by P x ys p h.1)
    | inr e ↦ rw e (p, h)
  ]

  pub All-sort_by : (P : A → Type 0) (xs : List A) → All P xs → All P (sort_by xs)
  All-sort_by P [] h = tt
  All-sort_by P (x ∷ xs) h = All-insert_by P x (sort_by xs) h.0 (All-sort_by P xs h.1)

-- min(values), of none if there are none
abbrev pub lower : ℕ → Option ℕ → ℕ
lower x none = x
lower x (some y) = if ltb y x then y else x

abbrev pub min_of : List ℕ → Option ℕ
min_of [] = none
min_of (x ∷ xs) = some (lower x (min_of xs))

-- The least value is one of them, and none is below it.
pub min_of-none : (xs : List ℕ) (k : ℕ) → min_of xs ≡ none → exists_row (λ x. x == k) xs ≡ false
min_of-none [] k e = refl
min_of-none (x ∷ xs) k e = cc

lower-le : (x : ℕ) (o : Option ℕ) → (lower x o ≤ x)
lower-le x none = omega arith
lower-le x (some y) = ground arith

pub min_of-le :
    (xs : List ℕ) (k : ℕ) {m : ℕ} → min_of xs ≡ some m → exists_row (λ x. x == k) xs ≡ true → m ≤ k
min_of-le [] k e h = cc
min_of-le (x ∷ xs) k {m} e h = elim (Option-cases (min_of xs)) [
  | inl q ↦ let none_left = min_of-none xs k q in let e' = rw q at e in ground (arith, none_left)
  | inr (y, q) ↦
      let e' : some (lower x (some y)) ≡ some m = rw q at e in
      elim (Bool-cases (exists_row (λ z. z == k) xs)) [
        | inl t ↦ let rest : y ≤ k = min_of-le xs k q t in ground (arith, rest)
        | inr t ↦ ground arith
      ]
]

pub min_of-member : (xs : List ℕ) {m : ℕ} → min_of xs ≡ some m → exists_row (λ x. x == m) xs ≡ true
min_of-member [] e = cc
min_of-member (x ∷ xs) {m} e = elim (Option-cases (min_of xs)) [
  | inl q ↦ let e' : some (lower x none) ≡ some m = rw q at e in ground arith
  | inr (y, q) ↦
      let rest : exists_row (λ z. z == y) xs ≡ true = min_of-member xs q in
      let e' : some (lower x (some y)) ≡ some m = rw q at e in
      elim (Bool-cases (ltb y x)) [
        | inl t ↦
            let k : y ≡ m = ground (arith, t) in
            let rest' : exists_row (λ z. z == m) xs ≡ true = rw (← k) rest in ground (arith, rest')
        | inr t ↦ ground (arith, t)
      ]
]

module _ {A : Type 0} where
  -- The keys of the selected rows.
  pub exists_row-map-select :
      (p : A → Bool) (f : A → ℕ) (k : ℕ) (xs : List A)
      → exists_row (λ n. n == k) (map f (select p xs)) ≡ exists_row (λ x. p x && f x == k) xs
  exists_row-map-select p f k [] = refl
  exists_row-map-select p f k (x ∷ xs) = elim (Bool-cases (p x)) [
    | inl e ↦ let rest = exists_row-map-select p f k xs in rw (e, map) (rw (rest) refl)
    | inr e ↦ let rest = exists_row-map-select p f k xs in rw (e, map) rest
  ]

  pub exists_row-append :
      (p : A → Bool) (xs ys : List A)
      → exists_row p (xs ++ ys) ≡ (exists_row p xs || exists_row p ys)
  exists_row-append p [] ys = refl
  exists_row-append p (x ∷ xs) ys = elim (Bool-cases (p x)) [
    | inl e ↦ rw e refl
    | inr e ↦ rw e (exists_row-append p xs ys)
  ]

  -- A row that exists is found.
  pub exists_row-find_row :
      (p : A → Bool) (xs : List A) → exists_row p xs ≡ true → (x : A) × (find_row p xs ≡ some x)
  exists_row-find_row p [] e = cc
  exists_row-find_row p (x ∷ xs) e = elim (Bool-cases (p x)) [
    | inl t ↦ (x, rw t refl)
    | inr t ↦ let (y, found) = exists_row-find_row p xs (rw t at e) in (y, rw t found)
  ]

  -- What exists by one test, exists by a weaker one.
  pub exists_row-map :
      (p q : A → Bool) (xs : List A)
      → All (λ x. p x ≡ true → q x ≡ true) xs
      → exists_row p xs ≡ true
      → exists_row q xs ≡ true
  exists_row-map p q [] h e = cc
  exists_row-map p q (x ∷ xs) h e = elim (Bool-cases (p x)) [
    | inl t ↦ let t' = h.0 t in rw t' refl
    | inr t ↦ let rest = exists_row-map p q xs h.1 (rw t at e) in ground (arith, rest)
  ]

  pub find_row-exists :
      (p : A → Bool) (xs : List A) {x : A} → find_row p xs ≡ some x → exists_row p xs ≡ true
  find_row-exists p [] e = cc
  find_row-exists p (y ∷ ys) e = elim (Bool-cases (p y)) [
    | inl t ↦ rw t refl
    | inr t ↦ let rest = find_row-exists p ys (rw t at e) in ground (arith, rest)
  ]

  -- A row of the table that matches is one that exists.
  pub exists_row-All :
      (p : A → Bool) (xs : List A) → All (λ x. p x ≡ true → exists_row p xs ≡ true) xs
  exists_row-All p [] = tt
  exists_row-All p (x ∷ xs) = (
    (λ t. rw t refl),
    All-map (λ y. p y ≡ true → exists_row p xs ≡ true)
        (λ y. p y ≡ true → exists_row p (x ∷ xs) ≡ true)
        (λ y h t. let rest = h t in ground (arith, rest)) xs (exists_row-All p xs),
  )

  pub length-take : (n : ℕ) (xs : List A) → length (take n xs) ≤ n
  length-take zero xs = omega arith
  length-take (suc n) [] = omega arith
  length-take (suc n) (x ∷ xs) = omega (arith, length-take n xs)
