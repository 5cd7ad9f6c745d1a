-- ===== src/Store/Sql/Faults.antt =====
-- Runs in which statements fail, against the run in which none does.
use runtime_pulse.Prelude.{
  String, ◌≡◌, refl, Option, none, some, List, [], ◌∷◌, Result, ok, err, arith, Bool, true, false,
  if◌then◌else◌,
}
use runtime_pulse.Store.Tables.{Db, Statement}
use runtime_pulse.Store.Sql.{
  Conn, Sql, healthy, pure, fail, lift, exec, ◌>>=◌, transaction, finish, outcome, settle, exec_at,
  continue, commit, no_change,
}

-- A run that succeeds, whatever statements could have failed, is the run in which none does.
pub record Agrees {A : Type 0} (m : Sql A) : Type 0 where
  pub at :
      (c : Conn) (a : A) (db : Db)
      → outcome (m c) ≡ ok (a, db)
      → m (healthy c.db) ≡ (ok a, healthy db)

-- And a run that fails has changed nothing.
pub record IsAtomic {A : Type 0} (m : Sql A) : Type 0 where
  pub agrees : Agrees m
  pub unchanged : (c : Conn) (e : String) → (m c).0 ≡ err e → (m c).1.db ≡ c.db

module _ {A : Type 0} where
  pub Agrees-lift : (r : Result A) → Agrees (lift r)
  Agrees-lift (ok x) = record { at = λ c a db h. ground arith }
  Agrees-lift (err e) = record { at = λ c a db h. cc }

  pub Agrees-pure : (a : A) → Agrees (pure a)
  Agrees-pure a = Agrees-lift (ok a)

  pub Agrees-fail : (e : String) → Agrees (fail {A = A} e)
  Agrees-fail e = Agrees-lift (err e)

  settle-agrees :
      (faults : List (Option String)) (db : Db) (r : Result (A × Db)) (a : A) (db' : Db)
      → outcome (settle faults db r) ≡ ok (a, db')
      → settle [] db r ≡ (ok a, healthy db')
  settle-agrees faults db (ok x) a db' h = ground arith
  settle-agrees faults db (err e) a db' h = cc

  exec_at-agrees :
      (faults : List (Option String)) (stmt : Statement A) (db : Db) (a : A) (db' : Db)
      → outcome (exec_at faults stmt db) ≡ ok (a, db')
      → settle [] db (stmt db) ≡ (ok a, healthy db')
  unfolding exec_at
  exec_at-agrees [] stmt db a db' h = settle-agrees [] db (stmt db) a db' h
  exec_at-agrees (none ∷ rest) stmt db a db' h = settle-agrees rest db (stmt db) a db' h
  exec_at-agrees (some e ∷ rest) stmt db a db' h = cc

  pub Agrees-exec : (stmt : Statement A) → Agrees (exec stmt)
  unfolding exec exec_at
  Agrees-exec stmt = record { at = λ c a db h. exec_at-agrees c.faults stmt c.db a db h }

  settle-unchanged :
      (faults : List (Option String)) (db : Db) (r : Result (A × Db)) (e : String)
      → (settle faults db r).0 ≡ err e
      → (settle faults db r).1.db ≡ db
  settle-unchanged faults db (ok x) e h = cc
  settle-unchanged faults db (err e') e h = refl

  exec_at-unchanged :
      (faults : List (Option String)) (stmt : Statement A) (db : Db) (e : String)
      → (exec_at faults stmt db).0 ≡ err e
      → (exec_at faults stmt db).1.db ≡ db
  unfolding exec_at
  exec_at-unchanged [] stmt db e h = settle-unchanged [] db (stmt db) e h
  exec_at-unchanged (none ∷ rest) stmt db e h = settle-unchanged rest db (stmt db) e h
  exec_at-unchanged (some e' ∷ rest) stmt db e h = refl

  -- One statement is atomic by itself.
  pub exec-IsAtomic : (stmt : Statement A) → IsAtomic (exec stmt)
  unfolding exec
  exec-IsAtomic stmt = record {
    agrees = Agrees-exec stmt;
    unchanged = λ c e h. exec_at-unchanged c.faults stmt c.db e h;
  }

  pub Agrees-if : (b : Bool) (m n : Sql A) → Agrees m → Agrees n → Agrees (if b then m else n)
  Agrees-if true m n km kn = km
  Agrees-if false m n km kn = kn

module _ {A B : Type 0} where
  continue-Agrees :
      (r : Result A) (f : A → Sql B) (c : Conn) (b : B) (db : Db) (start : Conn) (m : Sql A)
      → (r' : Result A × Conn) → r' ≡ (r, c)
      → ((a : A) (db' : Db) → outcome r' ≡ ok (a, db') → m start ≡ (ok a, healthy db'))
      → ((a : A) → Agrees (f a))
      → outcome (continue r f c) ≡ ok (b, db)
      → (m >>= f) start ≡ (ok b, healthy db)
  continue-Agrees (ok a) f c b db start m r' e km kf h =
      let first : m start ≡ (ok a, healthy c.db) = km a c.db (rw e) in rw first ((kf a).at c b db h)
  continue-Agrees (err x) f c b db start m r' e km kf h = cc

  pub Agrees-bind :
      (m : Sql A) (f : A → Sql B) → Agrees m → ((a : A) → Agrees (f a)) → Agrees (m >>= f)
  Agrees-bind m f km kf = record {
    at = λ c b db h.
        continue-Agrees (m c).0 f (m c).1 b db (healthy c.db) m (m c) refl (km.at c) kf h;
  }

pub ruleset agrees_rules =
    (Agrees-lift, Agrees-pure, Agrees-fail, Agrees-exec, Agrees-if, Agrees-bind)

module _ {A : Type 0} where
  commit-agrees :
      (db : Db) (x : A) (faults : List (Option String)) (d : Db) (a : A) (db' : Db)
      → outcome (commit db x (exec_at faults no_change d)) ≡ ok (a, db')
      → (ok x ≡ ok a) × (d ≡ db')
  unfolding exec_at commit
  commit-agrees db x [] d a db' h = ground arith
  commit-agrees db x (none ∷ rest) d a db' h = ground arith
  commit-agrees db x (some e ∷ rest) d a db' h = cc

  commit-unchanged :
      (db : Db) (x : A) (faults : List (Option String)) (d : Db) (e : String)
      → (commit db x (exec_at faults no_change d)).0 ≡ err e
      → (commit db x (exec_at faults no_change d)).1.db ≡ db
  unfolding exec_at commit
  commit-unchanged db x [] d e h = cc
  commit-unchanged db x (none ∷ rest) d e h = cc
  commit-unchanged db x (some e' ∷ rest) d e h = refl

  finish-agrees :
      (db : Db) (r : Result A) (c : Conn) (a : A) (db' : Db)
      → outcome (finish db (r, c)) ≡ ok (a, db')
      → (r ≡ ok a) × (c.db ≡ db')
  unfolding finish exec
  finish-agrees db (ok x) c a db' h = commit-agrees db x c.faults c.db a db' h
  finish-agrees db (err e) c a db' h = cc

  finish-unchanged :
      (db : Db) (r : Result A) (c : Conn) (e : String)
      → (finish db (r, c)).0 ≡ err e
      → (finish db (r, c)).1.db ≡ db
  unfolding finish exec
  finish-unchanged db (ok x) c e h = commit-unchanged db x c.faults c.db e h
  finish-unchanged db (err e') c e h = refl

  module _ (m : Sql A) (k : Agrees m) where
    began-agrees :
        (faults : List (Option String)) (db : Db) (a : A) (db' : Db)
        → outcome (finish db (m (record { db = db; faults = faults }))) ≡ ok (a, db')
        → finish db (m (healthy db)) ≡ (ok a, healthy db')
    unfolding finish exec exec_at commit
    began-agrees faults db a db' h =
        let c : Conn = record { db = db; faults = faults } in
        let parts : ((m c).0 ≡ ok a) × ((m c).1.db ≡ db') =
          finish-agrees db (m c).0 (m c).1 a db' h in
        rw (k.at c a db' (rw parts.0 (rw parts.1)))

    began_at-agrees :
        (faults : List (Option String)) (db : Db) (a : A) (db' : Db)
        → outcome (transaction m (record { db = db; faults = faults })) ≡ ok (a, db')
        → finish db (m (healthy db)) ≡ (ok a, healthy db')
    unfolding transaction exec_at
    began_at-agrees [] db a db' h = began-agrees [] db a db' h
    began_at-agrees (none ∷ rest) db a db' h = began-agrees rest db a db' h
    began_at-agrees (some e ∷ rest) db a db' h = cc

    began_at-unchanged :
        (faults : List (Option String)) (db : Db) (e : String)
        → (transaction m (record { db = db; faults = faults })).0 ≡ err e
        → (transaction m (record { db = db; faults = faults })).1.db ≡ db
    unfolding transaction exec_at
    began_at-unchanged [] db e h =
        let r : Result A × Conn = m (record { db = db; faults = [] }) in
        finish-unchanged db r.0 r.1 e h
    began_at-unchanged (none ∷ rest) db e h =
        let r : Result A × Conn = m (record { db = db; faults = rest }) in
        finish-unchanged db r.0 r.1 e h
    began_at-unchanged (some e' ∷ rest) db e h = refl

    -- A transaction either commits or leaves the database as it was.
    pub transaction-IsAtomic : IsAtomic (transaction m)
    unfolding transaction exec_at
    transaction-IsAtomic = record {
      agrees = record { at = λ c a db h. began_at-agrees c.faults c.db a db h };
      unchanged = λ c e h. began_at-unchanged c.faults c.db e h;
    }

module _ {A : Type 0} (m : Sql A) (db : Db) where
  -- A transaction on a healthy connection does what its body does, if the body succeeds.
  pub transaction_run :
      (a : A) (db' : Db)
      → m (healthy db) ≡ (ok a, healthy db')
      → transaction m (healthy db) ≡ (ok a, healthy db')
  unfolding transaction exec exec_at finish commit
  transaction_run a db' h = rw h

  -- And fails with it, rolled back.
  pub transaction_fails :
      (e : String) (db' : Db)
      → m (healthy db) ≡ (err e, healthy db')
      → transaction m (healthy db) ≡ (err e, healthy db)
  unfolding transaction exec exec_at finish
  transaction_fails e db' h = rw h
