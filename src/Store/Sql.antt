-- ===== src/Store/Sql.antt =====
-- How the Go code runs statements. Any of them may fail (a busy or broken database), and a
-- transaction that does not commit leaves the database as it was.
pub mod Faults
use runtime_pulse.Prelude.{String, Option, none, some, List, [], ◌∷◌, Result, ok, err}
use runtime_pulse.Store.Tables.{Db, Statement}

-- The one connection of the pool. `faults` says which of the next statements fail, and how; when
-- the list has ended no more of them do.
pub record Conn : Type 0 where
  pub db : Db
  pub faults : List (Option String)

abbrev pub Sql : Type 0 → Type 0
Sql A = Conn → Result A × Conn

-- A healthy connection.
abbrev pub healthy : Db → Conn
healthy db = record { db = db; faults = [] }

module _ {A : Type 0} where
  abbrev pub pure : A → Sql A
  pure a c = (ok a, c)

  abbrev pub fail : String → Sql A
  fail e c = (err e, c)

  abbrev pub lift : Result A → Sql A
  lift r c = (r, c)

  -- What a statement leaves behind, with the faults that are still to come.
  abbrev pub settle : List (Option String) → Db → Result (A × Db) → Result A × Conn
  settle faults db (ok (a, db')) = (ok a, record { db = db'; faults = faults })
  settle faults db (err e) = (err e, record { db = db; faults = faults })

  unfoldable pub exec_at : List (Option String) → Statement A → Db → Result A × Conn
  exec_at [] stmt db = settle [] db (stmt db)
  exec_at (none ∷ rest) stmt db = settle rest db (stmt db)
  exec_at (some e ∷ rest) stmt db = (err e, record { db = db; faults = rest })

  -- db.Exec, tx.Exec, db.Query, db.QueryRow
  unfoldable pub exec : Statement A → Sql A
  unfolding exec_at
  exec stmt c = exec_at c.faults stmt c.db

module _ {A B : Type 0} where
  abbrev pub continue : Result A → (A → Sql B) → Sql B
  continue (ok a) f c = f a c
  continue (err e) f c = (err e, c)

  infixl 5 ◌>>=◌ ◌>>◌
  -- `if err != nil { return err }`
  abbrev pub ◌>>=◌ : Sql A → (A → Sql B) → Sql B
  ◌>>=◌ m f c = let (r, c') = m c in continue r f c'

  abbrev pub ◌>>◌ : Sql A → Sql B → Sql B
  m >> n = m >>= λ _. n

-- Begin and Commit, which change no table.
abbrev no_change : Statement (Unit {0})
no_change db = ok (tt, db)

module _ {A : Type 0} where
  commit : Db → A → Result (Unit {0}) × Conn → Result A × Conn
  commit db a (ok _, c) = (ok a, c)
  commit db a (err e, c) = (err e, record c { db = db })

  -- The end of a transaction that began at `db`: Commit, or the deferred Rollback.
  unfoldable pub finish : Db → Result A × Conn → Result A × Conn
  unfolding exec commit
  finish db (err e, c) = (err e, record c { db = db })
  finish db (ok a, c) = commit db a (exec no_change c)

  -- `tx, err := s.db.Begin(); defer tx.Rollback(); …; tx.Commit()`
  unfoldable pub transaction : Sql A → Sql A
  unfolding finish exec
  transaction m c = (exec no_change >>= λ _ c'. finish c.db (m c')) c

  -- What a run returns and what it leaves in the database.
  abbrev pub outcome : Result A × Conn → Result (A × Db)
  outcome (ok a, c) = ok (a, c.db)
  outcome (err e, c) = err e

  -- A run in which no statement fails by itself.
  abbrev pub run : Sql A → Db → Result (A × Db)
  run m db = outcome (m (healthy db))
