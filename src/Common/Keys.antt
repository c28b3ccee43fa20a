-- ===== src/Common/Keys.antt =====
-- Primary keys: no two rows of a table have one key.
use Prim.Native.Nat.{ℕ, ◌≤◌}
use mathlib.Core.Path.{◌≡◌, refl, ◌∙◌, sym, ap}
use mathlib.Core.Logic.{◌≢◌, inl, inr}
use mathlib.Core.Bool.{Bool, true, false}
use mathlib.Core.Option.{none, some}
use mathlib.Core.List.{List, [], ◌∷◌, ◌++◌}
use native.Mathlib.Omega.{arith}
use lance_etl.Common.Tests.{◌==◌, Bool-cases}
use lance_etl.Common.Lists.{All, All-append, All-map, All-zip}
use lance_etl.Common.Rows.{
  find_row, exists_row, update_rows, count_rows, Evolves, All-update_rows, select, All-select_of,
}

module _ {A : Type 0} (key : A → ℕ) where
  abbrev pub Keyed : List A → Type 0
  Keyed [] = Unit
  Keyed (x ∷ xs) = All (λ y. key y ≢ key x) xs × Keyed xs

  -- `w` is the row of its key.
  abbrev pub IsCurrent : A → List A → Type 0
  IsCurrent w xs = All (λ x. key x ≡ key w → x ≡ w) xs

  no_key : (k : ℕ) (xs : List A) → exists_row (λ x. key x == k) xs ≡ false → All (λ x. key x ≢ k) xs
  no_key k [] h = tt
  no_key k (x ∷ xs) h = (λ e. ground arith, no_key k xs (ground arith))

  Keyed-snoc : (xs : List A) (y : A) → Keyed xs → All (λ x. key x ≢ key y) xs → Keyed (xs ++ y ∷ [])
  Keyed-snoc [] y h f = (tt, tt)
  Keyed-snoc (x ∷ xs) y h f = (
    All-append (λ z. key z ≢ key x) xs (y ∷ []) h.0 ((λ e. f.0 (sym e)), tt),
    Keyed-snoc xs y h.1 f.1,
  )

  -- An insertion that found no row of its key.
  pub Keyed-insert :
      (xs : List A) (y : A)
      → exists_row (λ x. key x == key y) xs ≡ false
      → Keyed xs
      → Keyed (xs ++ y ∷ [])
  Keyed-insert xs y e h = Keyed-snoc xs y h (no_key (key y) xs e)

  module _ (p : A → Bool) (f : A → A) (same : (x : A) → key (f x) ≡ key x) where
    ne-update_rows :
        (k : ℕ) (xs : List A) → All (λ x. key x ≢ k) xs → All (λ x. key x ≢ k) (update_rows p f xs)
    ne-update_rows k xs h =
        All-update_rows (λ x. key x ≢ k) p f (λ x _ ne e. ne (sym (same x) ∙ e)) xs h

    pub Keyed-update_rows : (xs : List A) → Keyed xs → Keyed (update_rows p f xs)
    Keyed-update_rows [] h = tt
    Keyed-update_rows (x ∷ xs) h = elim (Bool-cases (p x)) [
      | inl e ↦ rw e (
        subst_key (key x) (key (f x)) (sym (same x)) (update_rows p f xs)
            (ne-update_rows (key x) xs h.0),
        Keyed-update_rows xs h.1,
      )
      | inr e ↦ rw e (ne-update_rows (key x) xs h.0, Keyed-update_rows xs h.1)
    ]
      where
        subst_key :
            (a b : ℕ) → a ≡ b → (ys : List A) → All (λ y. key y ≢ a) ys → All (λ y. key y ≢ b) ys
        subst_key a b e ys = All-map (λ y. key y ≢ a) (λ y. key y ≢ b) (λ y ne q. ne (q ∙ sym e)) ys

  pub Keyed-select : (p : A → Bool) (xs : List A) → Keyed xs → Keyed (select p xs)
  Keyed-select p [] h = tt
  Keyed-select p (x ∷ xs) h = elim (Bool-cases (p x)) [
    | inl e ↦ rw e (All-select_of (λ y. key y ≢ key x) p xs h.0, Keyed-select p xs h.1)
    | inr e ↦ rw e (Keyed-select p xs h.1)
  ]

  -- A lookup by key returns the only row of that key.
  pub find_row-IsCurrent :
      (k : ℕ) (xs : List A) (w : A)
      → Keyed xs
      → find_row (λ x. key x == k) xs ≡ some w
      → (key w ≡ k) × IsCurrent w xs
  find_row-IsCurrent k [] w h e = cc
  find_row-IsCurrent k (x ∷ xs) w h e = elim (Bool-cases (key x == k)) [
    | inl t ↦
        let q : x ≡ w = ground arith in
        let kx : key w ≡ k = ground (arith, q) in
        (
          kx,
          (
            (λ _. q),
            All-map (λ y. key y ≢ key x) (λ y. key y ≡ key w → y ≡ w)
                (λ y ne s. absurd (ne (s ∙ ap key (sym q)))) xs h.0,
          ),
        )
    | inr t ↦
        let (kw, rest) = find_row-IsCurrent k xs w h.1 (ground arith) in
        (kw, ((λ s. ground arith), rest))
  ]

  -- Under a primary key each row is the row of its key.
  pub Keyed-IsCurrent : (xs : List A) → Keyed xs → All (λ w. IsCurrent w xs) xs
  Keyed-IsCurrent [] h = tt
  Keyed-IsCurrent (x ∷ xs) h = (
    (
      (λ _. refl),
      All-map (λ y. key y ≢ key x) (λ y. key y ≡ key x → y ≡ x) (λ y ne s. absurd (ne s)) xs h.0,
    ),
    All-map (λ w. (key w ≢ key x) × IsCurrent w xs) (λ w. IsCurrent w (x ∷ xs))
        (λ w p. ((λ s. absurd (p.0 (sym s))), p.1)) xs
        (All-zip (λ w. key w ≢ key x) (λ w. IsCurrent w xs) xs h.0 (Keyed-IsCurrent xs h.1)),
  )

  count_none :
      (p : A → Bool) (k : ℕ) (xs : List A)
      → ((x : A) → p x ≡ true → key x ≡ k)
      → All (λ x. key x ≢ k) xs
      → count_rows p xs ≡ 0
  count_none p k [] only h = refl
  count_none p k (x ∷ xs) only h = elim (Bool-cases (p x)) [
    | inl e ↦ absurd (h.0 (only x e))
    | inr e ↦ rw e (count_none p k xs only h.1)
  ]

  pub count_rows-le-one :
      (p : A → Bool) (k : ℕ) (xs : List A)
      → ((x : A) → p x ≡ true → key x ≡ k)
      → Keyed xs
      → count_rows p xs ≤ 1
  count_rows-le-one p k [] only h = omega arith
  count_rows-le-one p k (x ∷ xs) only h = elim (Bool-cases (p x)) [
    | inl e ↦
        let none_left = count_none p k xs only (
          All-map (λ y. key y ≢ key x) (λ y. key y ≢ k) (λ y ne q. ne (q ∙ sym (only x e))) xs
            h.0) in
        rw e (omega (arith, none_left))
    | inr e ↦ rw e (count_rows-le-one p k xs only h.1)
  ]

  -- A statement that names one key changes one row if it matches any.
  pub count_rows-eq-exists_row :
      (p : A → Bool) (k : ℕ) (xs : List A)
      → ((x : A) → p x ≡ true → key x ≡ k)
      → Keyed xs
      → (count_rows p xs == 1) ≡ exists_row p xs
  count_rows-eq-exists_row p k [] only h = refl
  count_rows-eq-exists_row p k (x ∷ xs) only h = elim (Bool-cases (p x)) [
    | inl e ↦
        let none_left = count_none p k xs only (
          All-map (λ y. key y ≢ key x) (λ y. key y ≢ k) (λ y ne q. ne (q ∙ sym (only x e))) xs
            h.0) in
        rw e (ground (arith, none_left))
    | inr e ↦ rw e (count_rows-eq-exists_row p k xs only h.1)
  ]

module _ {A : Type 0} where
  -- An UPDATE whose WHERE clause matches nothing changes nothing.
  pub update_rows-of-none :
      (p : A → Bool) (f : A → A) (xs : List A) → exists_row p xs ≡ false → update_rows p f xs ≡ xs
  update_rows-of-none p f [] h = refl
  update_rows-of-none p f (x ∷ xs) h =
      let rest = update_rows-of-none p f xs (ground arith) in ground (arith, rest)

  pub count_rows-of-none :
      (p : A → Bool) (xs : List A) → exists_row p xs ≡ false → count_rows p xs ≡ 0
  count_rows-of-none p [] h = refl
  count_rows-of-none p (x ∷ xs) h =
      let rest = count_rows-of-none p xs (ground arith) in ground (arith, rest)

  pub exists_row-of-All :
      (p : A → Bool) (xs : List A) → All (λ x. p x ≡ false) xs → exists_row p xs ≡ false
  exists_row-of-All p [] h = refl
  exists_row-of-All p (x ∷ xs) h =
      let rest = exists_row-of-All p xs h.1 in let head = h.0 in ground (arith, rest, head)

  pub exists_row-of-none :
      (p : A → Bool) (xs : List A) → ((x : A) → p x ≡ false) → exists_row p xs ≡ false
  exists_row-of-none p [] h = refl
  exists_row-of-none p (x ∷ xs) h =
      let rest = exists_row-of-none p xs h in ground (arith, rest, h x)

  -- A step of each row that matches, from what is known of the rows.
  pub Evolves-update_known :
      (R : A → A → Type 0) (Q P : A → Type 0) (p : A → Bool) (f : A → A)
      → ((x : A) → R x x)
      → ((x : A) → P x → p x ≡ true → R x (f x))
      → (xs : List A) → All P xs
      → Evolves R Q xs (update_rows p f xs)
  Evolves-update_known R Q P p f same step [] h = tt
  Evolves-update_known R Q P p f same step (x ∷ xs) h = elim (Bool-cases (p x)) [
    | inl e ↦ rw e (step x h.0 e, Evolves-update_known R Q P p f same step xs h.1)
    | inr e ↦ rw e (same x, Evolves-update_known R Q P p f same step xs h.1)
  ]

-- A row that was found is found again, one step later.
pub find_row-Evolves :
    {A : Type 0} (R : A → A → Type 0) (Q : A → Type 0) (key : A → ℕ)
    → ((x y : A) → R x y → key y ≡ key x)
    → (id : ℕ) (xs ys : List A) {a : A} → Evolves R Q xs ys
    → find_row (λ x. key x == id) xs ≡ some a
    → (b : A) × (find_row (λ x. key x == id) ys ≡ some b) × R a b
find_row-Evolves R Q key keeps id [] ys e f = cc
find_row-Evolves R Q key keeps id (x ∷ xs) [] e f = absurd e
find_row-Evolves R Q key keeps id (x ∷ xs) (y ∷ ys) {a} e f = elim (Bool-cases (key x == id)) [
  | inl t ↦
      let same = keeps x y e.0 in
      let t' : (key y == id) ≡ true = rw same t in
      let q : x ≡ a = ground (arith, t) in (y, ground (arith, t'), rw (← q) e.0)
  | inr t ↦
      let same = keeps x y e.0 in
      let t' : (key y == id) ≡ false = rw same t in
      let f' : find_row (λ x. key x == id) xs ≡ some a = ground (arith, t) in
      let (b, g, r) = find_row-Evolves R Q key keeps id xs ys e.1 f' in
      (b, ground (arith, t', g), r)
]

module _ {A : Type 0} (key : A → ℕ) (id : ℕ) where
  -- The row that an UPDATE by key wrote.
  pub find_row-update_rows :
      (f : A → A) (xs : List A) {a : A}
      → ((x : A) → key (f x) ≡ key x)
      → find_row (λ x. key x == id) xs ≡ some a
      → find_row (λ x. key x == id) (update_rows (λ x. key x == id) f xs) ≡ some (f a)
  find_row-update_rows f [] same e = cc
  find_row-update_rows f (x ∷ xs) {a} same e = elim (Bool-cases (key x == id)) [
    | inl t ↦
        let q : x ≡ a = ground (arith, t) in
        let t' : (key (f x) == id) ≡ true = rw (same x) t in rw t (rw t' (ap (λ y. some (f y)) q))
    | inr t ↦
        let e' : find_row (λ x. key x == id) xs ≡ some a = ground (arith, t) in
        rw t (rw t (find_row-update_rows f xs same e'))
  ]

  -- A row that is found is found in the longer table.
  pub find_row-append :
      (p : A → Bool) (xs ys : List A) {a : A}
      → find_row p xs ≡ some a
      → find_row p (xs ++ ys) ≡ some a
  find_row-append p [] ys e = cc
  find_row-append p (x ∷ xs) ys {a} e = elim (Bool-cases (p x)) [
    | inl t ↦ rw t (ground (arith, t))
    | inr t ↦
        let e' : find_row p xs ≡ some a = ground (arith, t) in rw t (find_row-append p xs ys e')
  ]

  pub find_row-snoc :
      (p : A → Bool) (xs : List A) (y : A)
      → find_row p xs ≡ none
      → p y ≡ true
      → find_row p (xs ++ y ∷ []) ≡ some y
  find_row-snoc p [] y e t = rw t refl
  find_row-snoc p (x ∷ xs) y e t = elim (Bool-cases (p x)) [
    | inl h ↦ absurd (ground (arith, h))
    | inr h ↦ let e' : find_row p xs ≡ none = ground (arith, h) in rw h (find_row-snoc p xs y e' t)
  ]

-- What is found matches.
pub find_row-matches :
    {A : Type 0} (p : A → Bool) (xs : List A) {a : A} → find_row p xs ≡ some a → p a ≡ true
find_row-matches p [] e = cc
find_row-matches p (x ∷ xs) {a} e = elim (Bool-cases (p x)) [
  | inl t ↦ let q : x ≡ a = ground (arith, t) in rw (← q) t
  | inr t ↦ find_row-matches p xs (ground (arith, t))
]

-- The row that an UPDATE of rows of its key wrote.
pub find_row-update_hit :
    {A : Type 0} (key : A → ℕ) (id : ℕ) (p : A → Bool) (f : A → A) (xs : List A) {a : A}
    → ((x : A) → key (f x) ≡ key x)
    → find_row (λ x. key x == id) xs ≡ some a
    → p a ≡ true
    → find_row (λ x. key x == id) (update_rows p f xs) ≡ some (f a)
find_row-update_hit key id p f [] same e hit = cc
find_row-update_hit key id p f (x ∷ xs) {a} same e hit = elim (Bool-cases (key x == id)) [
  | inl t ↦
      let q : x ≡ a = ground (arith, t) in
      let t' : (key (f x) == id) ≡ true = rw (same x) t in
      let hit' : p x ≡ true = rw q hit in rw hit' (rw t' (ap (λ y. some (f y)) q))
  | inr t ↦
      let e' : find_row (λ x. key x == id) xs ≡ some a = ground (arith, t) in
      let t' : (key (f x) == id) ≡ false = rw (same x) t in
      let rest = find_row-update_hit key id p f xs same e' hit in
      elim (Bool-cases (p x)) [ inl h ↦ rw h (rw t' rest) | inr h ↦ rw h (rw t rest) ]
]

-- A row that a lookup finds and a test accepts is one that exists.
pub find_row-hit :
    {A : Type 0} (key : A → ℕ) (id : ℕ) (p : A → Bool) (xs : List A) {a : A}
    → find_row (λ x. key x == id) xs ≡ some a
    → p a ≡ true
    → exists_row p xs ≡ true
find_row-hit key id p [] e hit = cc
find_row-hit key id p (x ∷ xs) {a} e hit = elim (Bool-cases (key x == id)) [
  | inl t ↦ let q : x ≡ a = ground (arith, t) in let hit' : p x ≡ true = rw q hit in rw hit' refl
  | inr t ↦
      let e' : find_row (λ x. key x == id) xs ≡ some a = ground (arith, t) in
      let rest = find_row-hit key id p xs e' hit in ground (arith, rest)
]
