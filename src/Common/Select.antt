-- ===== src/Common/Select.antt =====
-- What a selection keeps of a table: a lookup, another selection, the number of its rows.
use Prim.Native.Nat.{ℕ, ◌+◌, ◌≤◌}
use mathlib.Core.Path.{◌≡◌, refl, subst}
use mathlib.Core.Logic.{inl, inr}
use mathlib.Core.Bool.{Bool, true, false, not, ◌||◌}
use mathlib.Core.Option.{none, some}
use mathlib.Core.List.{List, [], ◌∷◌}
use native.Mathlib.Omega.{arith}
use lance_etl.Common.Tests.{◌==◌, Bool-cases, ==_refl, ==→eq}
use lance_etl.Common.Lists.{All, All-map, length}
use lance_etl.Common.Rows.{select, exists_row, find_row, count_rows, All-find_row}
use lance_etl.Common.Keys.{Keyed, IsCurrent, Keyed-IsCurrent, find_row-matches}
use lance_etl.Common.Sort.{exists_row-find_row}

module _ {A : Type 0} where
  pub find_row-select :
      (p q : A → Bool) (xs : List A)
      → All (λ x. p x ≡ true → q x ≡ true) xs
      → find_row p (select q xs) ≡ find_row p xs
  find_row-select p q [] h = refl
  find_row-select p q (x ∷ xs) h = elim (Bool-cases (q x)) [
    | inl t ↦ let rest = find_row-select p q xs h.1 in rw t (rw rest refl)
    | inr t ↦
        let rest = find_row-select p q xs h.1 in
        elim (Bool-cases (p x)) [
          | inl hit ↦ absurd (ground (arith, h.0 hit, t))
          | inr miss ↦ rw (t, miss) rest
        ]
  ]

  -- A lookup finds nothing where the selection has taken every match away.
  pub find_row-select-none :
      (p q : A → Bool) (xs : List A)
      → All (λ x. q x ≡ true → p x ≡ false) xs
      → find_row p (select q xs) ≡ none
  find_row-select-none p q [] h = refl
  find_row-select-none p q (x ∷ xs) h = elim (Bool-cases (q x)) [
    | inl t ↦ let rest = find_row-select-none p q xs h.1 in let miss = h.0 t in rw t (rw miss rest)
    | inr t ↦ rw t (find_row-select-none p q xs h.1)
  ]

  pub select-select :
      (p q : A → Bool) (xs : List A)
      → All (λ x. p x ≡ true → q x ≡ true) xs
      → select p (select q xs) ≡ select p xs
  select-select p q [] h = refl
  select-select p q (x ∷ xs) h = elim (Bool-cases (q x)) [
    | inl t ↦ let rest = select-select p q xs h.1 in rw t (rw rest refl)
    | inr t ↦
        let rest = select-select p q xs h.1 in
        elim (Bool-cases (p x)) [
          | inl hit ↦ absurd (ground (arith, h.0 hit, t))
          | inr miss ↦ rw (t, miss) rest
        ]
  ]

  -- The rows that stay and the rows that go.
  pub length-select :
      (p : A → Bool) (xs : List A)
      → length (select (λ x. not (p x)) xs) + count_rows p xs ≡ length xs
  length-select p [] = omega arith
  length-select p (x ∷ xs) = elim (Bool-cases (p x)) [
    | inl t ↦ let rest = length-select p xs in rw t (omega (arith, rest))
    | inr t ↦ let rest = length-select p xs in rw t (omega (arith, rest))
  ]

  pub count_rows-select :
      (p q : A → Bool) (xs : List A)
      → All (λ x. p x ≡ true → q x ≡ true) xs
      → count_rows p (select q xs) ≡ count_rows p xs
  count_rows-select p q [] h = refl
  count_rows-select p q (x ∷ xs) h = elim (Bool-cases (q x)) [
    | inl t ↦ let rest = count_rows-select p q xs h.1 in rw t (rw rest refl)
    | inr t ↦
        let rest = count_rows-select p q xs h.1 in
        elim (Bool-cases (p x)) [
          | inl hit ↦ absurd (ground (arith, h.0 hit, t))
          | inr miss ↦ rw (t, miss) rest
        ]
  ]

  pub count_rows-or :
      (p q : A → Bool) (xs : List A)
      → count_rows (λ x. p x || q x) xs ≤ count_rows p xs + count_rows q xs
  count_rows-or p q [] = omega arith
  count_rows-or p q (x ∷ xs) = ground (arith, count_rows-or p q xs)

module _ {A : Type 0} (key : A → ℕ) where
  exists_row-members : (xs : List A) → All (λ x. exists_row (λ y. key y == key x) xs ≡ true) xs
  exists_row-members [] = tt
  exists_row-members (x ∷ xs) = (
    rw (==_refl (key x)) refl,
    All-map (λ z. exists_row (λ y. key y == key z) xs ≡ true)
        (λ z. exists_row (λ y. key y == key z) (x ∷ xs) ≡ true) (λ z h. ground (arith, h)) xs
        (exists_row-members xs),
  )

  find_row-of_current :
      (w : A) (xs : List A)
      → IsCurrent key w xs
      → exists_row (λ y. key y == key w) xs ≡ true
      → find_row (λ y. key y == key w) xs ≡ some w
  find_row-of_current w xs current e =
      let (y, found) = exists_row-find_row (λ y. key y == key w) xs e in
      let hit = find_row-matches (λ y. key y == key w) xs found in
      let same =
        All-find_row (λ x. key x ≡ key w → x ≡ w) (λ y. key y == key w) xs y current found
          (==→eq (key y) (key w) hit) in
      subst (λ z. find_row (λ y. key y == key w) xs ≡ some z) same found

  -- Under a primary key, each row is what a lookup by its key finds.
  pub Keyed-found :
      (xs : List A) → Keyed key xs → All (λ w. find_row (λ y. key y == key w) xs ≡ some w) xs
  Keyed-found xs h = go xs (Keyed-IsCurrent key xs h) (exists_row-members xs)
    where
      go :
          (ys : List A)
          → All (λ w. IsCurrent key w xs) ys
          → All (λ w. exists_row (λ y. key y == key w) xs ≡ true) ys
          → All (λ w. find_row (λ y. key y == key w) xs ≡ some w) ys
      go [] c e = tt
      go (y ∷ ys) c e = (find_row-of_current y xs c.0 e.0, go ys c.1 e.1)
