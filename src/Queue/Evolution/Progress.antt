-- ===== src/Queue/Evolution/Progress.antt =====
-- How the tables of the control plane may change: the relation that every transaction keeps.
use lance_etl.Common.{ℕ, ◌≤◌, ◌≡◌, ◌∙◌, List, arith, Evolves, Evolves-refl, Evolves-trans, Keyed}
use lance_etl.Db.{Work, Dataset, Snapshot, Source, Database}
use lance_etl.Queue.Evolution.{IsLeased, RowStep, RowStep-refl, RowStep-trans}

-- A dataset keeps its identity, and its fence epoch never falls.
pub record DatasetStep (d e : Dataset) : Type 0 where
  pub dataset_id : e.dataset_id ≡ d.dataset_id
  pub source_id : e.source_id ≡ d.source_id
  pub identity : e.identity ≡ d.identity
  pub fence : d.fence_epoch ≤ e.fence_epoch

-- A snapshot keeps its place in the lineage and its metadata.
pub record SnapshotStep (s t : Snapshot) : Type 0 where
  pub seq : t.source_snapshot_seq ≡ s.source_snapshot_seq
  pub source_id : t.source_id ≡ s.source_id
  pub snapshot_id : t.snapshot_id ≡ s.snapshot_id
  pub parent : t.parent_snapshot_id ≡ s.parent_snapshot_id
  pub order : t.iceberg_sequence_number ≡ s.iceberg_sequence_number
  pub spec : t.partition_spec_id ≡ s.partition_spec_id
  pub kind : t.kind ≡ s.kind

-- A source keeps its identity, and its planning epoch never falls.
pub record SourceStep (s t : Source) : Type 0 where
  pub source_id : t.source_id ≡ s.source_id
  pub epoch : s.planning_epoch ≤ t.planning_epoch

abbrev pub Anything : {A : Type 0} → A → Type 0
Anything a = Unit {0}

abbrev pub work_key : Work → ℕ
work_key w = w.work_id

abbrev pub dataset_key : Dataset → ℕ
dataset_key d = d.dataset_id

-- The primary keys of `dataset_work` and `datasets`.
pub record IsKeyed (db : Database) : Type 0 where
  pub works : Keyed work_key db.works
  pub datasets : Keyed dataset_key db.datasets

pub record Progress (db db' : Database) : Type 0 where
  pub works : Evolves RowStep IsLeased db.works db'.works
  pub datasets : Evolves DatasetStep Anything db.datasets db'.datasets
  pub snapshots : Evolves SnapshotStep Anything db.snapshots db'.snapshots
  pub sources : Evolves SourceStep Anything db.sources db'.sources
  pub keyed : IsKeyed db'

pub DatasetStep-refl : (d : Dataset) → DatasetStep d d
DatasetStep-refl d = ground arith

pub SnapshotStep-refl : (s : Snapshot) → SnapshotStep s s
SnapshotStep-refl s = ground arith

pub SourceStep-refl : (s : Source) → SourceStep s s
SourceStep-refl s = ground arith

pub datasets_same : (ds : List Dataset) → Evolves DatasetStep Anything ds ds
datasets_same = Evolves-refl DatasetStep Anything DatasetStep-refl

pub snapshots_same : (ss : List Snapshot) → Evolves SnapshotStep Anything ss ss
snapshots_same = Evolves-refl SnapshotStep Anything SnapshotStep-refl

pub sources_same : (ss : List Source) → Evolves SourceStep Anything ss ss
sources_same = Evolves-refl SourceStep Anything SourceStep-refl

pub works_same : (ws : List Work) → Evolves RowStep IsLeased ws ws
works_same = Evolves-refl RowStep IsLeased RowStep-refl

pub Progress-refl : (db : Database) → IsKeyed db → Progress db db
Progress-refl db k = record {
  works = works_same db.works;
  datasets = datasets_same db.datasets;
  snapshots = snapshots_same db.snapshots;
  sources = sources_same db.sources;
  keyed = k;
}

-- A change of the works alone.
pub Progress-works :
    (db : Database) (ws : List Work)
    → IsKeyed db
    → Evolves RowStep IsLeased db.works ws
    → Keyed work_key ws
    → Progress db (record db { works = ws })
Progress-works db ws old e k = record {
  works = e;
  datasets = datasets_same db.datasets;
  snapshots = snapshots_same db.snapshots;
  sources = sources_same db.sources;
  keyed = record { works = k; datasets = old.datasets };
}

pub Progress-trans : (a b c : Database) → Progress a b → Progress b c → Progress a c
Progress-trans a b c p q = record {
  works =
      Evolves-trans RowStep IsLeased RowStep-trans (λ x y h s. s.leased h) a.works b.works c.works
        p.works q.works;
  datasets =
      Evolves-trans DatasetStep Anything
        (λ x y z h k. record {
          dataset_id = k.dataset_id ∙ h.dataset_id;
          source_id = k.source_id ∙ h.source_id;
          identity = k.identity ∙ h.identity;
          fence = omega arith;
        })
        (λ x y h s. tt) a.datasets b.datasets c.datasets p.datasets q.datasets;
  snapshots =
      Evolves-trans SnapshotStep Anything
        (λ x y z h k. record {
          seq = k.seq ∙ h.seq;
          source_id = k.source_id ∙ h.source_id;
          snapshot_id = k.snapshot_id ∙ h.snapshot_id;
          parent = k.parent ∙ h.parent;
          order = k.order ∙ h.order;
          spec = k.spec ∙ h.spec;
          kind = k.kind ∙ h.kind;
        })
        (λ x y h s. tt) a.snapshots b.snapshots c.snapshots p.snapshots q.snapshots;
  sources =
      Evolves-trans SourceStep Anything
        (λ x y z h k. record { source_id = k.source_id ∙ h.source_id; epoch = omega arith })
        (λ x y h s. tt) a.sources b.sources c.sources p.sources q.sources;
  keyed = q.keyed;
}
