-- ===== src/Store/Transaction.antt =====
-- `with self._connection` of store.py.
use runner_observability.Base.{◌≡◌, refl, ap, sym, Result, ok, err}
use runner_observability.Python.{Exception}
use runner_observability.Database.{Database}

-- The tables at the end of some statements, and their result or the exception that stopped them.
abbrev pub Outcome {ℓ} : Type ℓ → Type ℓ
Outcome A = Database × Result Exception A

module _ {ℓ} {A : Type ℓ} where
  -- What was written is committed at the end, and rolled back if an exception leaves the block.
  unfoldable pub transaction : (Database → Outcome A) → Database → Outcome A
  transaction body db =
      let (written, result) = body db in
      elim result [ ok a ↦ (written, ok a) | err e ↦ (db, err e) ]

  pub transaction-committed :
      (body : Database → Outcome A) (db : Database) {db' : Database} {a : A}
      → transaction body db ≡ (db', ok a)
      → body db ≡ (db', ok a)
  unfolding transaction
  transaction-committed body db h = of_result (body db).1 refl h
    where
      of_result :
          {db' : Database} {a : A} (result : Result Exception A)
          → (body db).1 ≡ result
          → transaction (λ _. ((body db).0, result)) db ≡ (db', ok a)
          → body db ≡ (db', ok a)
      of_result (ok a) same g = cc
      of_result (err e) same g = cc

  pub transaction-rolled_back :
      (body : Database → Outcome A) (db : Database) {db' : Database} {e : Exception}
      → transaction body db ≡ (db', err e)
      → (db' ≡ db) × ((body db).1 ≡ err e)
  unfolding transaction
  transaction-rolled_back body db h = of_result (body db).1 h
    where
      of_result :
          {db' : Database} {e : Exception} (result : Result Exception A)
          → transaction (λ _. ((body db).0, result)) db ≡ (db', err e)
          → (db' ≡ db) × (result ≡ err e)
      of_result (ok a) g = cc
      of_result (err e) g = (ap (λ (r : Outcome A). r.0) (sym g), cc)
