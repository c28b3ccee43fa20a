-- ===== src/Specs/Activation.antt =====
-- Activation leaves one ACTIVE revision of a specification.
use lance_etl.Common.{
  ℕ, ◌≡◌, refl, some, Bool, true, false, ◌&&◌, arith, List, [], ◌∷◌, ok, All, All-update_known,
  find_row, exists_row, count_rows, update_rows, ◌==◌, Bool-cases, inl, inr, count_rows-of-none,
}
use lance_etl.Db.{SpecRevision, Database}
use lance_etl.Planning.Enqueue.{is_active_revision}
use lance_etl.Specs.{
  active_in, draft_with, is_draft, retire_active, activate_draft, swap_active, activate_found,
  activate_spec_revision,
}

-- A revision of the specification that is ACTIVE is the one just activated.
abbrev pub IsSole : ℕ → ℕ → SpecRevision → Type 0
IsSole spec_id revision r =
    r.spec_id ≡ spec_id → is_active_revision r.state ≡ true → r.spec_revision_id ≡ revision

abbrev NotActive : ℕ → SpecRevision → Type 0
NotActive spec_id r = r.spec_id ≡ spec_id → is_active_revision r.state ≡ false

All-any : (rows : List SpecRevision) → All (λ r. Unit {0}) rows
All-any [] = tt
All-any (r ∷ rows) = (tt, All-any rows)

swap_active-IsSole :
    (spec_id revision now : ℕ) (rows : List SpecRevision)
    → All (IsSole spec_id revision) (swap_active spec_id revision now rows)
unfolding swap_active
swap_active-IsSole spec_id revision now rows =
    All-update_known (NotActive spec_id) (IsSole spec_id revision) (draft_with revision)
      (activate_draft now) (λ r h t s a. ground arith)
      (λ r h t s a. let h' = h s in absurd (ground arith))
      (update_rows (active_in spec_id) retire_active rows)
      (All-update_known (λ r. Unit {0}) (NotActive spec_id) (active_in spec_id) retire_active
        (λ r _ t s. refl) (λ r _ t s. ground arith) rows (All-any rows))

abbrev pub is_active_id : ℕ → SpecRevision → Bool
is_active_id revision r = r.spec_revision_id == revision && is_active_revision r.state

swap_active-exists :
    (spec_id revision now : ℕ) (rows : List SpecRevision)
    → exists_row (draft_with revision) rows ≡ true
    → exists_row (is_active_id revision) (swap_active spec_id revision now rows) ≡ true
unfolding swap_active
swap_active-exists spec_id revision now [] e = cc
swap_active-exists spec_id revision now (r ∷ rows) e = elim (Bool-cases (draft_with revision r)) [
  | inl t ↦ let kept : active_in spec_id r ≡ false = ground arith in rw (kept, t) (ground arith)
  | inr t ↦
      let rest = swap_active-exists spec_id revision now rows (ground (arith, t)) in
      ground (arith, rest)
]

-- When a DRAFT revision is activated, it is ACTIVE afterwards, and no other revision of its
-- specification is.
pub activate_spec_revision-IsSole :
    (revision now : ℕ) (db : Database) (candidate : SpecRevision) {db' : Database}
    → find_row (λ (r : SpecRevision). r.spec_revision_id == revision) db.revisions ≡ some candidate
    → is_draft candidate.state ≡ true
    → activate_spec_revision revision now db ≡ ok db'
    → All (IsSole candidate.spec_id revision) db'.revisions
      × (exists_row (is_active_id revision) db'.revisions ≡ true)
unfolding activate_spec_revision activate_found
activate_spec_revision-IsSole revision now db candidate {db'} f draft e =
    let e1 = rw (f, activate_spec_revision) at e in
    let q : db'.revisions ≡ swap_active candidate.spec_id revision now db.revisions =
      ground arith in
    let one_draft : (count_rows (draft_with revision) db.revisions == 1) ≡ true = ground arith in
    let there : exists_row (draft_with revision) db.revisions ≡ true =
      elim (Bool-cases (exists_row (draft_with revision) db.revisions)) [
        | inl t ↦ t
        | inr t ↦
            let n = count_rows-of-none (draft_with revision) db.revisions t in
            absurd (ground (arith, n))
      ] in
    (
      rw q (swap_active-IsSole candidate.spec_id revision now db.revisions),
      rw q (swap_active-exists candidate.spec_id revision now db.revisions there),
    )
