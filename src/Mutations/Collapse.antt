-- ===== src/Mutations/Collapse.antt =====
-- etl/mutation.py: which terminal mutations a snapshot has.
use lance_etl.Common.{
  ◌≡◌, refl, sym, ◌∙◌, ap, String, Bool, true, false, ◌&&◌, ◌||◌, some, List, [], ◌∷◌, Result, ok,
  err, >>=-eq-ok, raise_if, Bool-cases, inl, inr, exists_row, find_row, str_eq, list_eq, ◌==◌,
  arith, ℤ, sort_by, or_swap, or_assoc, or_false, and-split,
}
use lance_etl.Types.{Bytes}
use lance_etl.Iceberg.{TargetKey, eq_target}
use lance_etl.Iceberg.Manifests.Targets.{eq_target→eq, exists_row-sort_by}
use lance_etl.Mutations.{
  MutationInput, TerminalMutation, Operation, normalize_operation, set_terminal, same_key,
  conflicts, terminal_of, collapse_rows, collapse_snapshot_mutations, key_lt, out_of_range,
  add_terminal,
}
use text.Mathlib.TextEquality.{eq_iff}

abbrev pub eq_bytes : Bytes → Bytes → Bool
eq_bytes a b = list_eq (λ x y. x == y) a b

pub eq_bytes→eq : (a b : Bytes) → eq_bytes a b ≡ true → a ≡ b
eq_bytes→eq [] [] h = refl
eq_bytes→eq [] (y ∷ ys) h = cc
eq_bytes→eq (x ∷ xs) [] h = cc
eq_bytes→eq (x ∷ xs) (y ∷ ys) h =
    let (front, rest) = and-split (x == y) (eq_bytes xs ys) h in
    let tails = eq_bytes→eq xs ys rest in let heads : x ≡ y = ground arith in cc

or_same : (a b : Bool) → (a || b) ≡ (a || (a || b))
or_same true b = refl
or_same false b = refl

module _ {P : Type 0} (normalized : String → String)
    (digest : TargetKey → String → Operation → ℤ → P → Bytes) where
  abbrev pub same_digest : Bytes → MutationInput P → Result Operation → Bool
  same_digest d row (ok operation) =
      eq_bytes (digest row.target row.record_id operation row.ts row.payload) d
  same_digest d row (err e) = false

  -- The row has the key and the digest.
  abbrev pub is_event : TargetKey → String → Bytes → MutationInput P → Bool
  is_event target record_id d row =
      (eq_target row.target target && str_eq row.record_id record_id)
      && same_digest d row (normalize_operation normalized row.operation)

module _ {P : Type 0} where
  abbrev pub is_terminal : TargetKey → String → Bytes → TerminalMutation P → Bool
  is_terminal target record_id d t =
      (eq_target t.target target && str_eq t.record_id record_id) && eq_bytes t.event_digest d

module _ {P : Type 0} (normalized : String → String)
    (digest : TargetKey → String → Operation → ℤ → P → Bytes) (target : TargetKey)
    (record_id : String) (d : Bytes) where
  is_terminal-same :
      (x t : TerminalMutation P)
      → same_key normalized digest x t ≡ true
      → conflicts normalized digest t (some x) ≡ false
      → is_terminal target record_id d x ≡ is_terminal target record_id d t
  is_terminal-same x t same agreed =
      let (places, names) = and-split (eq_target x.target t.target) _ same in
      let q1 = eq_target→eq x.target t.target places in
      let q2 = (eq_iff x.record_id t.record_id).0 names in
      let q3 : eq_bytes x.event_digest t.event_digest ≡ true = ground arith in
      let q4 = eq_bytes→eq x.event_digest t.event_digest q3 in rw (q1, q2, q4) refl

  exists_row-set_terminal :
      (t : TerminalMutation P) (ts : List (TerminalMutation P))
      → conflicts normalized digest t (find_row (λ x. same_key normalized digest x t) ts) ≡ false
      → exists_row (is_terminal target record_id d) (set_terminal normalized digest t ts)
        ≡ (is_terminal target record_id d t || exists_row (is_terminal target record_id d) ts)
  exists_row-set_terminal t [] h = refl
  exists_row-set_terminal t (x ∷ xs) h = elim (Bool-cases (same_key normalized digest x t)) [
    | inl same ↦
        let q = is_terminal-same x t same (rw same at h) in
        rw (same, q)
          (or_same (is_terminal target record_id d t)
            (exists_row (is_terminal target record_id d) xs))
    | inr other ↦
        let rest = exists_row-set_terminal t xs (rw other at h) in
        rw (other, rest)
          (or_swap (is_terminal target record_id d x) (is_terminal target record_id d t)
            (exists_row (is_terminal target record_id d) xs))
  ]

  added :
      (t : TerminalMutation P) (ts : List (TerminalMutation P)) {ts' : List (TerminalMutation P)}
      → add_terminal normalized digest t ts ≡ ok ts'
      → exists_row (is_terminal target record_id d) ts'
        ≡ (is_terminal target record_id d t || exists_row (is_terminal target record_id d) ts)
  added t ts {ts'} done =
      elim (Bool-cases
        (conflicts normalized digest t (find_row (λ x. same_key normalized digest x t) ts))) [
          | inl bad ↦ let raised = rw bad at done in cc
          | inr fine ↦
              let kept : ok (set_terminal normalized digest t ts) ≡ ok ts' = rw fine at done in
              let q : set_terminal normalized digest t ts ≡ ts' = ground arith in
              rw (← q) (exists_row-set_terminal t ts fine)
        ]

  exists_row-collapse_rows :
      (w s : ℤ) (ts : List (TerminalMutation P)) (rows : List (MutationInput P))
      {end : List (TerminalMutation P)}
      → collapse_rows normalized digest w s ts rows ≡ ok end
      → exists_row (is_terminal target record_id d) end ≡ (
          exists_row (is_event normalized digest target record_id d) rows
          || exists_row (is_terminal target record_id d) ts)
  unfolding collapse_rows
  exists_row-collapse_rows w s ts [] {end} done = let q : ts ≡ end = ground arith in rw q refl
  exists_row-collapse_rows w s ts (row ∷ rows) {end} done =
      let (operation, read, done1) =
        >>=-eq-ok (normalize_operation normalized row.operation) _ done in
      let t = terminal_of normalized digest w s row operation in
      let (ts', kept, done2) = >>=-eq-ok (add_terminal normalized digest t ts) _ done1 in
      let rest = exists_row-collapse_rows w s ts' rows done2 in
      let now = added t ts kept in
      rw read (
        rest
        ∙ ap (λ b. exists_row (is_event normalized digest target record_id d) rows || b) now
        ∙ sym (
            or_assoc (is_terminal target record_id d t)
              (exists_row (is_event normalized digest target record_id d) rows)
              (exists_row (is_terminal target record_id d) ts)))

  -- A snapshot that collapses has a terminal mutation with a key and a digest exactly when one of
  -- its rows has that key and, its operation normalized, that digest.
  pub collapse_snapshot_mutations_exact :
      (rows : List (MutationInput P)) (window_seq source_sequence : ℤ)
      (ts : List (TerminalMutation P))
      → collapse_snapshot_mutations normalized digest rows window_seq source_sequence ≡ ok ts
      → exists_row (is_terminal target record_id d) ts
        ≡ exists_row (is_event normalized digest target record_id d) rows
  unfolding collapse_snapshot_mutations
  collapse_snapshot_mutations_exact rows window_seq source_sequence ts done =
      let (u, in_range, done1) = >>=-eq-ok (raise_if (out_of_range window_seq) _) _ done in
      let (v, in_range2, done2) = >>=-eq-ok (raise_if (out_of_range source_sequence) _) _ done1 in
      let (found, collapsed, done3) =
        >>=-eq-ok (collapse_rows normalized digest window_seq source_sequence [] rows) _ done2 in
      let q : sort_by (key_lt normalized digest) found ≡ ts = ground arith in
      let all = exists_row-collapse_rows window_seq source_sequence [] rows collapsed in
      let kept =
        exists_row-sort_by (key_lt normalized digest) (is_terminal target record_id d) found in
      ap (exists_row (is_terminal target record_id d)) (sym q)
      ∙ kept
      ∙ all
      ∙ or_false (exists_row (is_event normalized digest target record_id d) rows)
