-- ===== src/Common/Rows.antt =====
-- SQL over a table held as the list of its rows.
use Prim.Native.Nat.{ℕ, suc}
use mathlib.Core.Path.{◌≡◌}
use mathlib.Core.Logic.{inl, inr}
use mathlib.Core.Bool.{Bool, true, false, ◌||◌, ◌&&◌}
use mathlib.Core.Option.{Option, none, some}
use mathlib.Core.List.{List, [], ◌∷◌, ◌++◌}
use native.Mathlib.Omega.{arith}
use lance_etl.Common.Tests.{if◌then◌else◌, Bool-cases}
use lance_etl.Common.Lists.{All}

module _ {ℓ} {A : Type ℓ} where
  -- SELECT … WHERE p
  abbrev pub select : (A → Bool) → List A → List A
  select p [] = []
  select p (x ∷ xs) = let rest = select p xs in if p x then x ∷ rest else rest

  -- SELECT … WHERE p LIMIT 1
  abbrev pub find_row : (A → Bool) → List A → Option A
  find_row p [] = none
  find_row p (x ∷ xs) = let rest = find_row p xs in if p x then some x else rest

  -- EXISTS (SELECT 1 … WHERE p)
  abbrev pub exists_row : (A → Bool) → List A → Bool
  exists_row p [] = false
  exists_row p (x ∷ xs) = p x || exists_row p xs

  -- UPDATE … WHERE p
  abbrev pub update_rows : (A → Bool) → (A → A) → List A → List A
  update_rows p f [] = []
  update_rows p f (x ∷ xs) = (if p x then f x else x) ∷ update_rows p f xs

  -- the row count of a statement
  abbrev pub count_rows : (A → Bool) → List A → ℕ
  count_rows p [] = 0
  count_rows p (x ∷ xs) = let rest = count_rows p xs in if p x then suc rest else rest

module _ {ℓ κ} {A : Type ℓ} where
  pub All-update_rows :
      (P : A → Type κ) (p : A → Bool) (f : A → A)
      → ((x : A) → p x ≡ true → P x → P (f x))
      → (xs : List A) → All P xs
      → All P (update_rows p f xs)
  All-update_rows P p f keep [] h = tt
  All-update_rows P p f keep (x ∷ xs) h = elim (Bool-cases (p x)) [
    | inl e ↦ rw e (keep x e h.0, All-update_rows P p f keep xs h.1)
    | inr e ↦ rw e (h.0, All-update_rows P p f keep xs h.1)
  ]

  pub All-select :
      (P : A → Type κ) (p : A → Bool)
      → ((x : A) → p x ≡ true → P x)
      → (xs : List A) → All P (select p xs)
  All-select P p h [] = tt
  All-select P p h (x ∷ xs) = elim (Bool-cases (p x)) [
    | inl e ↦ rw e (h x e, All-select P p h xs)
    | inr e ↦ rw e (All-select P p h xs)
  ]

  pub All-select_of : (P : A → Type κ) (p : A → Bool) (xs : List A) → All P xs → All P (select p xs)
  All-select_of P p [] h = tt
  All-select_of P p (x ∷ xs) h = elim (Bool-cases (p x)) [
    | inl e ↦ rw e (h.0, All-select_of P p xs h.1)
    | inr e ↦ rw e (All-select_of P p xs h.1)
  ]

  pub All-find_row :
      (P : A → Type κ) (p : A → Bool) (xs : List A) (x : A)
      → All P xs
      → find_row p xs ≡ some x
      → P x
  All-find_row P p [] x h e = cc
  All-find_row P p (y ∷ ys) x h e = elim (Bool-cases (p y)) [
    | inl t ↦ let q : y ≡ x = ground arith in rw (← q) h.0
    | inr t ↦ All-find_row P p ys x h.1 (ground arith)
  ]

  -- What an UPDATE makes of what is known of the rows.
  pub All-update_known {μ} :
      (P : A → Type κ) (Q : A → Type μ) (p : A → Bool) (f : A → A)
      → ((x : A) → P x → p x ≡ true → Q (f x))
      → ((x : A) → P x → p x ≡ false → Q x)
      → (xs : List A) → All P xs
      → All Q (update_rows p f xs)
  All-update_known P Q p f hit miss [] h = tt
  All-update_known P Q p f hit miss (x ∷ xs) h = elim (Bool-cases (p x)) [
    | inl e ↦ rw e (hit x h.0 e, All-update_known P Q p f hit miss xs h.1)
    | inr e ↦ rw e (miss x h.0 e, All-update_known P Q p f hit miss xs h.1)
  ]

-- Two dicts, or two sets, are equal if each holds the entries of the other; keys are unique.
abbrev pub covers : {A B : Type 0} → (A → B → Bool) → List A → List B → Bool
covers same [] ys = true
covers same (x ∷ xs) ys = exists_row (same x) ys && covers same xs ys

abbrev pub same_dict : {A B : Type 0} → (A → B → Bool) → List A → List B → Bool
same_dict same xs ys = covers same xs ys && covers (λ y x. same x y) ys xs

-- How a table changes: each old row, in its place, by `R`, and the rows added by `Q`.
module _ {ℓ} {A : Type ℓ} where
  abbrev pub Evolves : (A → A → Type 0) → (A → Type 0) → List A → List A → Type 0
  Evolves R Q [] ys = All Q ys
  Evolves R Q (x ∷ xs) [] = ⊥
  Evolves R Q (x ∷ xs) (y ∷ ys) = R x y × Evolves R Q xs ys

  pub Evolves-update_rows :
      (R : A → A → Type 0) (Q : A → Type 0) (p : A → Bool) (f : A → A)
      → ((x : A) → R x x)
      → ((x : A) → p x ≡ true → R x (f x))
      → (xs : List A) → Evolves R Q xs (update_rows p f xs)
  Evolves-update_rows R Q p f same step [] = tt
  Evolves-update_rows R Q p f same step (x ∷ xs) = elim (Bool-cases (p x)) [
    | inl e ↦ rw e (step x e, Evolves-update_rows R Q p f same step xs)
    | inr e ↦ rw e (same x, Evolves-update_rows R Q p f same step xs)
  ]

  pub Evolves-refl :
      (R : A → A → Type 0) (Q : A → Type 0) → ((x : A) → R x x) → (xs : List A) → Evolves R Q xs xs
  Evolves-refl R Q same [] = tt
  Evolves-refl R Q same (x ∷ xs) = (same x, Evolves-refl R Q same xs)

  pub Evolves-append :
      (R : A → A → Type 0) (Q : A → Type 0) (xs ys zs : List A)
      → Evolves R Q xs ys
      → All Q zs
      → Evolves R Q xs (ys ++ zs)
  Evolves-append R Q [] [] zs h q = q
  Evolves-append R Q [] (y ∷ ys) zs h q = (h.0, Evolves-append R Q [] ys zs h.1 q)
  Evolves-append R Q (x ∷ xs) [] zs h q = absurd h
  Evolves-append R Q (x ∷ xs) (y ∷ ys) zs h q = (h.0, Evolves-append R Q xs ys zs h.1 q)

  pub Evolves-trans :
      (R : A → A → Type 0) (Q : A → Type 0)
      → ((x y z : A) → R x y → R y z → R x z)
      → ((x y : A) → Q x → R x y → Q y)
      → (xs ys zs : List A) → Evolves R Q xs ys
      → Evolves R Q ys zs
      → Evolves R Q xs zs
  Evolves-trans R Q t q [] [] zs h k = k
  Evolves-trans R Q t q [] (y ∷ ys) [] h k = absurd k
  Evolves-trans R Q t q [] (y ∷ ys) (z ∷ zs) h k =
      (q y z h.0 k.0, Evolves-trans R Q t q [] ys zs h.1 k.1)
  Evolves-trans R Q t q (x ∷ xs) [] zs h k = absurd h
  Evolves-trans R Q t q (x ∷ xs) (y ∷ ys) [] h k = absurd k
  Evolves-trans R Q t q (x ∷ xs) (y ∷ ys) (z ∷ zs) h k =
      (t x y z h.0 k.0, Evolves-trans R Q t q xs ys zs h.1 k.1)
