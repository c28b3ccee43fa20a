-- ===== src/Reconciler.antt =====
-- reconciler/service.py: one process of the reconciler, whose transactions are interleaved with
-- those of other processes. A step takes the world to a result and a world: a transaction that
-- raises leaves the database as it was, but what was committed before it stays. Before each
-- transaction the other processes have done theirs (`others`), and the clock is read.
pub mod Results
pub mod Dispatch
pub mod Planning
pub mod Application
pub mod History
pub mod Cycle
pub mod Accounting
pub mod Isolation
pub mod Blocking
pub mod Health
pub mod Routes
pub mod Sweep
pub mod Follows
pub mod Deletions
pub mod Histories
pub mod Fences
use lance_etl.Common.{ℕ, suc, String, Bool, Option, Result, ok, err}
use lance_etl.Types.{WorkClaim}
use lance_etl.Db.{Database}

pub record World : Type 0 where
  pub database : Database
  -- the number of transactions that were begun
  pub calls : ℕ

abbrev pub Step : Type 0 → Type 0
Step A = World → Result A × World

-- What the process does not decide: at each transaction, the clock and what others commit before
-- it, and for a claim the tokens that it draws and the rows that it finds locked.
pub record Environment : Type 0 where
  pub clock : ℕ → ℕ
  pub others : ℕ → Database → Database
  pub token : ℕ → ℕ → ℕ
  pub locked_work : ℕ → ℕ → Bool
  pub locked_dataset : ℕ → ℕ → Bool

abbrev pub after : {A B : Type 0} → Result A × World → (A → Step B) → Result B × World
after (err e, w) f = (err e, w)
after (ok a, w) f = f a w

abbrev pub and_then : {A B : Type 0} → Step A → (A → Step B) → Step B
and_then m f w = after (m w) f

abbrev pub pure : {A : Type 0} → A → Step A
pure a w = (ok a, w)

-- A computation that does not touch the database.
abbrev pub lift : {A : Type 0} → Result A → Step A
lift r w = (r, w)

-- A transaction that raised is rolled back.
abbrev pub settle : {A : Type 0} → World → Result (A × Database) → Result A × World
settle w (err e) = (err e, w)
settle w (ok (a, db)) = (ok a, record w { database = db })

module _ (env : Environment) where
  -- The database that a transaction meets.
  abbrev pub met : World → World
  met w = record { database = env.others w.calls w.database; calls = suc w.calls }

  abbrev pub transaction : {A : Type 0} → (ℕ → ℕ → Database → Result (A × Database)) → Step A
  transaction body w = settle (met w) (body w.calls (env.clock w.calls) (met w).database)
