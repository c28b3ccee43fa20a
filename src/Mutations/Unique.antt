-- ===== src/Mutations/Unique.antt =====
-- etl/mutation.py: a collapsed snapshot has one terminal mutation for a key.
use lance_etl.Common.{
  ◌≡◌, ◌≤◌, refl, sym, ◌∙◌, String, Bool, true, false, ◌&&◌, List, [], ◌∷◌, ok, >>=-eq-ok, raise_if,
  Bool-cases, inl, inr, exists_row, count_rows, find_row, str_eq, arith, ℤ, sort_by, insert_by,
  and-split, or_false, ◌||◌,
}
use lance_etl.Types.{Bytes}
use lance_etl.Iceberg.{TargetKey, eq_target}
use lance_etl.Iceberg.Manifests.Targets.{eq_target→eq}
use lance_etl.Mutations.{
  MutationInput, TerminalMutation, Operation, normalize_operation, set_terminal, same_key,
  conflicts, terminal_of, collapse_rows, collapse_snapshot_mutations, key_lt, out_of_range,
  add_terminal,
}
use lance_etl.Mutations.Collapse.{
  is_event, is_terminal, eq_bytes, eq_bytes→eq, collapse_snapshot_mutations_exact,
}
use text.Mathlib.TextEquality.{eq_iff}

module _ {A : Type 0} (before : A → A → Bool) (p : A → Bool) where
  count_rows-insert_by :
      (x : A) (xs : List A) → count_rows p (insert_by before x xs) ≡ count_rows p (x ∷ xs)
  count_rows-insert_by x [] = refl
  count_rows-insert_by x (y ∷ ys) = elim (Bool-cases (before y x)) [
    | inl t ↦ let rest = count_rows-insert_by x ys in rw t (ground (arith, rest))
    | inr t ↦ rw t refl
  ]

  -- Sorting keeps the counts.
  pub count_rows-sort_by : (xs : List A) → count_rows p (sort_by before xs) ≡ count_rows p xs
  count_rows-sort_by [] = refl
  count_rows-sort_by (x ∷ xs) =
      let rest = count_rows-sort_by xs in
      let put = count_rows-insert_by x (sort_by before xs) in ground (arith, rest, put)

module _ {P : Type 0} where
  abbrev pub has_key : TargetKey → String → TerminalMutation P → Bool
  has_key target record_id t = eq_target t.target target && str_eq t.record_id record_id

module _ {P : Type 0} (normalized : String → String)
    (digest : TargetKey → String → Operation → ℤ → P → Bytes) (target : TargetKey)
    (record_id : String) where
  has_key-same :
      (x t : TerminalMutation P)
      → same_key normalized digest x t ≡ true
      → has_key target record_id x ≡ has_key target record_id t
  has_key-same x t same =
      let (places, names) = and-split (eq_target x.target t.target) _ same in
      let q1 = eq_target→eq x.target t.target places in
      let q2 = (eq_iff x.record_id t.record_id).0 names in rw (q1, q2) refl

  count_rows-missed :
      (t : TerminalMutation P) (ts : List (TerminalMutation P))
      → has_key target record_id t ≡ false
      → count_rows (has_key target record_id) (set_terminal normalized digest t ts)
        ≡ count_rows (has_key target record_id) ts
  count_rows-missed t [] h = rw h refl
  count_rows-missed t (x ∷ xs) h = elim (Bool-cases (same_key normalized digest x t)) [
    | inl same ↦ let q = has_key-same x t same in rw (same, q) refl
    | inr other ↦ let rest = count_rows-missed t xs h in rw (other) (ground (arith, rest))
  ]

  same_key-of :
      (x t : TerminalMutation P)
      → has_key target record_id x ≡ true
      → has_key target record_id t ≡ true
      → same_key normalized digest x t ≡ true
  same_key-of x t hx ht =
      let (places, names) = and-split (eq_target t.target target) _ ht in
      let q1 = eq_target→eq t.target target places in
      let q2 = (eq_iff t.record_id record_id).0 names in rw (q1, q2) hx

  count_rows-set_terminal :
      (t : TerminalMutation P) (ts : List (TerminalMutation P))
      → count_rows (has_key target record_id) ts ≤ 1
      → count_rows (has_key target record_id) (set_terminal normalized digest t ts) ≤ 1
  count_rows-set_terminal t [] h = ground arith
  count_rows-set_terminal t (x ∷ xs) h = elim (Bool-cases (same_key normalized digest x t)) [
    | inl same ↦ let q = has_key-same x t same in let h' = rw q at h in rw same h'
    | inr other ↦ elim (Bool-cases (has_key target record_id x)) [
      | inl hit ↦ elim (Bool-cases (has_key target record_id t)) [
        | inl both ↦ let same = same_key-of x t hit both in cc
        | inr missed ↦
            let kept = count_rows-missed t xs missed in
            let h' = rw hit at h in rw (other, hit, kept) h'
      ]
      | inr missed ↦
          let rest = count_rows-set_terminal t xs (rw missed at h) in rw (other, missed) rest
    ]
  ]

  added-le-one :
      (t : TerminalMutation P) (ts : List (TerminalMutation P)) {ts' : List (TerminalMutation P)}
      → add_terminal normalized digest t ts ≡ ok ts'
      → count_rows (has_key target record_id) ts ≤ 1
      → count_rows (has_key target record_id) ts' ≤ 1
  added-le-one t ts {ts'} done h =
      let (u, fine, kept) =
        >>=-eq-ok
          (raise_if
            (conflicts normalized digest t (find_row (λ x. same_key normalized digest x t) ts)) _)
          _ done in
      let q : set_terminal normalized digest t ts ≡ ts' = ground arith in
      rw (← q) (count_rows-set_terminal t ts h)

  count_rows-collapse_rows :
      (w s : ℤ) (ts : List (TerminalMutation P)) (rows : List (MutationInput P))
      {end : List (TerminalMutation P)}
      → collapse_rows normalized digest w s ts rows ≡ ok end
      → count_rows (has_key target record_id) ts ≤ 1
      → count_rows (has_key target record_id) end ≤ 1
  unfolding collapse_rows
  count_rows-collapse_rows w s ts [] {end} done h = let q : ts ≡ end = ground arith in rw (← q) h
  count_rows-collapse_rows w s ts (row ∷ rows) {end} done h =
      let (operation, read, done1) =
        >>=-eq-ok (normalize_operation normalized row.operation) _ done in
      let t = terminal_of normalized digest w s row operation in
      let (ts', kept, done2) = >>=-eq-ok (add_terminal normalized digest t ts) _ done1 in
      count_rows-collapse_rows w s ts' rows done2 (added-le-one t ts kept h)

  collapsed-le-one :
      (rows : List (MutationInput P)) (window_seq source_sequence : ℤ)
      (ts : List (TerminalMutation P))
      → collapse_snapshot_mutations normalized digest rows window_seq source_sequence ≡ ok ts
      → count_rows (has_key target record_id) ts ≤ 1
  unfolding collapse_snapshot_mutations
  collapsed-le-one rows window_seq source_sequence ts done =
      let (u, in_range, done1) = >>=-eq-ok (raise_if (out_of_range window_seq) _) _ done in
      let (v, in_range2, done2) = >>=-eq-ok (raise_if (out_of_range source_sequence) _) _ done1 in
      let (found, collapsed, done3) =
        >>=-eq-ok (collapse_rows normalized digest window_seq source_sequence [] rows) _ done2 in
      let q : sort_by (key_lt normalized digest) found ≡ ts = ground arith in
      let one =
        count_rows-collapse_rows window_seq source_sequence [] rows collapsed (omega arith) in
      let kept = count_rows-sort_by (key_lt normalized digest) (has_key target record_id) found in
      rw (← q, kept) one

module _ {P : Type 0} (target : TargetKey) (record_id : String) (d d' : Bytes) where
  none_left :
      (e : Bytes) (ts : List (TerminalMutation P))
      → count_rows (has_key target record_id) ts ≡ 0
      → exists_row (is_terminal target record_id e) ts ≡ false
  none_left e [] h = refl
  none_left e (x ∷ xs) h = elim (Bool-cases (has_key target record_id x)) [
    | inl hit ↦ ground (arith, hit)
    | inr missed ↦ let rest = none_left e xs (rw missed at h) in rw missed rest
  ]

  -- A table with one row of the key has one digest for it.
  one_digest :
      (ts : List (TerminalMutation P))
      → count_rows (has_key target record_id) ts ≤ 1
      → exists_row (is_terminal target record_id d) ts ≡ true
      → exists_row (is_terminal target record_id d') ts ≡ true
      → d ≡ d'
  one_digest [] h e e' = cc
  one_digest (x ∷ xs) h e e' = elim (Bool-cases (has_key target record_id x)) [
    | inl hit ↦
        let h' = rw hit at h in
        let zero_left : count_rows (has_key target record_id) xs ≡ 0 = omega (arith, h') in
        let gone = none_left d xs zero_left in
        let gone' = none_left d' xs zero_left in
        let here : (eq_bytes x.event_digest d || false) ≡ true = rw (hit, gone) at e in
        let here' : (eq_bytes x.event_digest d' || false) ≡ true = rw (hit, gone') at e' in
        let q = eq_bytes→eq x.event_digest d (sym (or_false _) ∙ here) in
        let q' = eq_bytes→eq x.event_digest d' (sym (or_false _) ∙ here') in cc
    | inr missed ↦ one_digest xs (rw missed at h) (rw missed at e) (rw missed at e')
  ]

module _ {P : Type 0} (normalized : String → String)
    (digest : TargetKey → String → Operation → ℤ → P → Bytes) (target : TargetKey)
    (record_id : String) where
  -- Where a snapshot collapses, any two rows of one key have one digest, and its terminal
  -- mutations have at most one for the key.
  pub collapse_snapshot_mutations_agree :
      (d d' : Bytes) (rows : List (MutationInput P)) (window_seq source_sequence : ℤ)
      (ts : List (TerminalMutation P))
      → collapse_snapshot_mutations normalized digest rows window_seq source_sequence ≡ ok ts
      → exists_row (is_event normalized digest target record_id d) rows ≡ true
      → exists_row (is_event normalized digest target record_id d') rows ≡ true
      → (d ≡ d') × (count_rows (has_key target record_id) ts ≤ 1)
  collapse_snapshot_mutations_agree d d' rows window_seq source_sequence ts done e e' =
      let one =
        collapsed-le-one normalized digest target record_id rows window_seq source_sequence ts
          done in
      let stored =
        collapse_snapshot_mutations_exact normalized digest target record_id d rows window_seq
          source_sequence ts done in
      let stored' =
        collapse_snapshot_mutations_exact normalized digest target record_id d' rows window_seq
          source_sequence ts done in
      (one_digest target record_id d d' ts one (stored ∙ e) (stored' ∙ e'), one)
