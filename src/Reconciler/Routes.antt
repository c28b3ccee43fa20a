-- ===== src/Reconciler/Routes.antt =====
-- reconciler/planning.py: which routes a window is enqueued for.
use lance_etl.Common.{
  ℕ, ℤ, Option, Result, err, sym, ◌∙◌, arith, ◌≡◌, refl, ap, Bool, true, false, ◌||◌, List, [], ◌∷◌,
  map, ok, value_error, raise_if-eq-ok, >>=-eq-ok, ◌>>=◌, All, All-map, exists_row,
}
use lance_etl.Types.{RoutingIdentity}
use lance_etl.Iceberg.{TargetKey, WindowPlan, eq_target}
use lance_etl.Types.Ids.{Uuids}
use lance_etl.Db.{Database}
use lance_etl.Settings.{ReconcilerSettings}
use lance_etl.Planning.Routes.{feeds, Fed, enqueue_source_snapshot-Fed}
use lance_etl.Planning.Enqueue.{enqueue_source_snapshot}
use lance_etl.Reconciler.{World, Step, Environment, and_then, lift, settle, met}
use lance_etl.Reconciler.Planning.{
  RegisteredSource, map_targets, map_datasets, map_snapshot, route_of, is_maintenance_window,
  enqueue_window,
}

-- No target is repeated later in the list.
unfoldable pub Unrepeated : List TargetKey → Type 0
Unrepeated [] = Unit
Unrepeated (t ∷ ts) = All (λ s. eq_target s t ≡ false) ts × Unrepeated ts

-- No target of the list is among those seen.
abbrev pub Unseen : List TargetKey → List TargetKey → Type 0
Unseen seen ts = All (λ t. exists_row (eq_target t) seen ≡ false) ts

or-false : (a b : Bool) → (a || b) ≡ false → (a ≡ false) × (b ≡ false)
or-false true b h = cc
or-false false b h = (refl, h)

map_targets-ok :
    (seen ts : List TargetKey) {routes : List RoutingIdentity}
    → map_targets seen ts ≡ ok routes
    → (routes ≡ map route_of ts) × (Unseen seen ts × Unrepeated ts)
unfolding map_targets Unrepeated
map_targets-ok seen [] {routes} e = let q : [] ≡ routes = cc in rw (← q) (refl, (tt, tt))
map_targets-ok seen (t ∷ ts) {routes} e =
    let (fresh, e1) =
      raise_if-eq-ok (exists_row (eq_target t) seen)
        (value_error "source window contains a duplicate target identity")
        (map_targets (t ∷ seen) ts >>= λ rest. ok (route_of t ∷ rest)) e in
    let (rest, mapped, e2) =
      >>=-eq-ok (map_targets (t ∷ seen) ts) (λ rest. ok (route_of t ∷ rest)) e1 in
    let (same, (unseen, unrepeated)) = map_targets-ok (t ∷ seen) ts mapped in
    let q : route_of t ∷ rest ≡ routes = cc in
    rw (← q) (
      ap (λ r. route_of t ∷ r) same,
      (
        (
          fresh,
          All-map _ (λ s. exists_row (eq_target s) seen ≡ false) (λ s h. (or-false _ _ h).1) ts
              unseen,
        ),
        (All-map _ (λ s. eq_target s t ≡ false) (λ s h. (or-false _ _ h).0) ts unseen, unrepeated),
      ),
    )

-- The route that a target stands for.
abbrev pub place : TargetKey → RoutingIdentity
place t = record { tenant_id = t.tenant_id; namespace = t.namespace; org_id = t.org_id }

Fed-of :
    (u : Uuids) (source_id seq : ℕ) (ts : List TargetKey) (db : Database)
    → Fed u source_id seq (map route_of ts) db
    → All (λ t. exists_row (feeds u source_id seq (place t)) db.works ≡ true) ts
Fed-of u source_id seq [] db h = tt
Fed-of u source_id seq (t ∷ ts) db h = (h.0, Fed-of u source_id seq ts db h.1)

module _ {A B : Type 0} where
  lift_then-ok :
      (r : Result A) (f : A → Step B) (w : World) {b : B}
      → (and_then (lift r) f w).0 ≡ ok b
      → (a : A) × ((r ≡ ok a) × ((f a w).0 ≡ ok b) × ((f a w).1 ≡ (and_then (lift r) f w).1))
  lift_then-ok (ok a) f w e = (a, (refl, e, refl))
  lift_then-ok (err raised) f w e = cc

settle-ok :
    {A : Type 0} (w : World) (m : Result (A × Database)) {a : A}
    → (settle w m).0 ≡ ok a
    → (r : A × Database) × ((m ≡ ok r) × (r.0 ≡ a) × ((settle w m).1.database ≡ r.1))
settle-ok w (ok (x, db)) {a} e = ((x, db), (refl, ground arith, refl))
settle-ok w (err raised) e = cc

-- A window that is enqueued, other than trusted maintenance, has no repeated target, and the
-- database has for each of its targets the INGEST work of that tenant, namespace and organization
-- of the source, for the sequence that is returned.
pub enqueue_window-IsFed :
    (u : Uuids) (env : Environment) (settings : ReconcilerSettings) (source : RegisteredSource)
    (epoch : Option ℤ) (window : WindowPlan) (w : World) (seq : ℕ)
    → is_maintenance_window window.kind ≡ false
    → (enqueue_window u env settings source epoch window w).0 ≡ ok seq
    → Unrepeated window.targets
      × All
          (λ t.
            exists_row
              (feeds u source.source_id seq (place t))
              (enqueue_window u env settings source epoch window w).1.database.works
            ≡ true)
          window.targets
unfolding enqueue_window map_datasets
enqueue_window-IsFed u env settings source epoch window w seq k e =
    let plan = map_snapshot source.source_id window epoch in
    let body : List RoutingIdentity → Result (ℕ × Database) = λ datasets.
      enqueue_source_snapshot u plan datasets (env.clock w.calls) (met env w).database in
    let (routes, (mapped, run, there)) =
      lift_then-ok (map_datasets window)
        (λ datasets w'.
          settle (met env w')
            (enqueue_source_snapshot u plan datasets (env.clock w'.calls) (met env w').database))
        w e in
    let ((n, db), (done, same, stored)) = settle-ok (met env w) (body routes) run in
    let (named, (_, unrepeated)) = map_targets-ok [] window.targets (rw k at mapped) in
    let fed =
      enqueue_source_snapshot-Fed u plan routes (env.clock w.calls) (met env w).database done in
    let fed' : Fed u source.source_id seq (map route_of window.targets) db =
      unfold map_snapshot in rw (← same, ← named) fed in
    let q = sym stored ∙ ap (λ v. v.database) there in
    (unrepeated, rw (← q) (Fed-of u source.source_id seq window.targets db fed'))
