-- ===== src/Database/Session.antt =====
-- What the gateways call of a SQLAlchemy session (a parameter), table by table, and the transaction
-- manager (sqlalchemy_transaction_manager.py). `none` is a SQLAlchemyError.
use answer_service.Base.{
  ℕ, ◌≡◌, ap, ◌≤◌, Bool, true, Option, none, some, List, [], ◌∷◌, All, length, ◌==◌, Eq,
  if◌then◌else◌,
}
use answer_service.Errors.{Result, ok, err, repo_error}
use answer_service.Application.Io.{Io}
use answer_service.Application.Ports.{TransactionManager}

-- One table of the session, with rows of a type `R`: `session.add`, `select(...).where(p)` of the
-- entities and of the columns, that of the entities ordered by a column and limited, `delete(...).where(p)`, `update(...).where(p).values(f)`, and the
-- assignments to the attributes of an object that the session tracks.
pub record Table (S R : Type 0) : Type 0 where
  pub add : R → S → S
  pub select : (R → Bool) → S → Option (List R) × S
  pub select_columns : (R → Bool) → S → Option (List R) × S
  pub select_first : (R → Bool) → (order_by : R → Option ℕ) → (limit : ℕ) → S → Option (List R) × S
  pub delete_where : (R → Bool) → S → Option (Unit {0}) × S
  pub update_where : (R → Bool) → (R → R) → S → Option (Unit {0}) × S
  pub changed : R → S → S

-- `try: … except SQLAlchemyError as e: raise RepoError`
abbrev pub or_repo_error : {A : Type 0} → Option A → Result A
or_repo_error none = err repo_error
or_repo_error (some a) = ok a

abbrev pub attempt : {S A : Type 0} → (S → Option A × S) → Io S A
attempt m s = (or_repo_error (m s).0, (m s).1)

-- A statement that has not raised has given what the coroutine returns.
pub attempt-eq-ok :
    {S A : Type 0} (m : S → Option A × S) (s t : S) (a : A)
    → attempt m s ≡ (ok a, t)
    → m s ≡ (some a, t)
attempt-eq-ok {S} {A} m s t a h = go (m s).0 (m s).1 h
  where
    go :
        (o : Option A) (u : S)
        → ◌≡◌ {A = Result A × S} (or_repo_error o, u) (ok a, t)
        → ◌≡◌ {A = Option A × S} (o, u) (some a, t)
    go none u h = let no : ⊥ = cc (ap (λ (q : Result A × S). q.0) h) in elim no [ ]
    go (some b) u h =
        let e : ok b ≡ ok a = ap (λ (q : Result A × S). q.0) h in
        let same : b ≡ a = cc e in λ i. (some (same i), ap (λ (q : Result A × S). q.1) h i)

-- `scalar_one_or_none()`: two rows are an error of SQLAlchemy.
abbrev pub one_or_none {ℓ} : {R : Type ℓ} → List R → Option (Option R)
one_or_none [] = some none
one_or_none (r ∷ []) = some (some r)
one_or_none (r ∷ q ∷ rest) = none

abbrev pub one_of : {S R : Type 0} → Option (List R) × S → Option (Option R) × S
one_of (none, s) = (none, s)
one_of (some rs, s) = (one_or_none rs, s)

-- The three calls of the session that the transaction manager makes.
pub record Session (S : Type 0) : Type 0 where
  pub flush : S → Option (Unit {0}) × S
  pub commit : S → Option (Unit {0}) × S
  pub rollback : S → Option (Unit {0}) × S

unfoldable pub flush : {S : Type 0} → Session S → Io S (Unit {0})
flush session = attempt session.flush

-- SqlAlchemyTransactionManager
unfoldable pub sql_transaction_manager : {S : Type 0} → Session S → TransactionManager S
sql_transaction_manager session = record {
  commit = attempt session.commit;
  rollback = attempt session.rollback;
}

abbrev pub on_row {ℓ} : {R : Type ℓ} → (R → R) → Option R → Option R
on_row f none = none
on_row f (some r) = some (f r)

-- What the statements do, seen through `lookup`, the row of a key as a flush would leave it.
pub record TableLaws {S R K : Type 0} ⦃test : Eq K⦄ (table : Table S R) (key : R → K)
    (lookup : S → K → Option R) : Type 0 where
  pub selects_first :
      (p : R → Bool) (order_by : R → Option ℕ) (limit : ℕ) (s t : S) (rs : List R)
      → table.select_first p order_by limit s ≡ (some rs, t)
      → All (λ r. (p r ≡ true) × (lookup s (key r) ≡ some r)) rs
        × (length rs ≤ limit)
        × (lookup t ≡ lookup s)
  pub changes :
      (r : R) (s : S) (k : K)
      → lookup (table.changed r s) k ≡ (if key r == k then some r else lookup s k)
  pub updates :
      (k : K) (f : R → R) (s t : S)
      → ((r : R) → key (f r) ≡ key r)
      → table.update_where (λ r. key r == k) f s ≡ (some tt, t)
      → (j : K) → lookup t j ≡ (if k == j then on_row f (lookup s j) else lookup s j)

-- The row, if it is there and satisfies a condition.
abbrev pub kept {ℓ} : {R : Type ℓ} → (R → Bool) → Option R → Option R
kept p none = none
kept p (some r) = if p r then some r else none

module _ {R K : Type 0} ⦃test : Eq K⦄ (key : R → K) where
  -- The row of a key.
  abbrev pub row_of : K → List R → Option R
  row_of k [] = none
  row_of k (r ∷ rs) = elim (row_of k rs) [
    | some q ↦ some q
    | none ↦ if key r == k then some r else none
  ]

  -- What a SELECT gives, beside the rows that the table has stored: one for each key.
  pub record SelectLaws {S : Type 0} (table : Table S R) (stored : S → K → Option R) : Type 0 where
    pub stored_key : (s : S) (k : K) (r : R) → stored s k ≡ some r → key r ≡ k
    pub selects :
        (p : R → Bool) (s t : S) (rs : List R)
        → table.select_columns p s ≡ (some rs, t)
        → (k : K) → row_of k rs ≡ kept p (stored s k)

abbrev pub rows_of {ℓ} : {R : Type ℓ} → Option R → List R
rows_of none = []
rows_of (some r) = r ∷ []

-- What a SELECT of the entity by the primary key gives: the one row of the key as the session shows it, the changes
-- of its tracked object included, or none.
pub record KeyLaws {S R K : Type 0} ⦃test : Eq K⦄ (table : Table S R) (key : R → K)
    (lookup : S → K → Option R) : Type 0 where
  pub lookup_key : (s : S) (k : K) (r : R) → lookup s k ≡ some r → key r ≡ k
  pub selects_key :
      (k : K) (s t : S) (rs : List R)
      → table.select (λ r. key r == k) s ≡ (some rs, t)
      → (rs ≡ rows_of (lookup s k)) × (lookup t ≡ lookup s)
  pub changes_key : (r : R) (s : S) → lookup (table.changed r s) (key r) ≡ some r

-- What a SELECT of the columns by the primary key gives: the row that the database shows, whatever the
-- session has tracked or added and not flushed.
pub record ColumnLaws {S R K : Type 0} ⦃test : Eq K⦄ (table : Table S R) (key : R → K)
    (shown : S → K → Option R) : Type 0 where
  pub shown_key : (s : S) (k : K) (r : R) → shown s k ≡ some r → key r ≡ k
  pub selects_columns :
      (k : K) (s t : S) (rs : List R)
      → table.select_columns (λ r. key r == k) s ≡ (some rs, t)
      → rs ≡ rows_of (shown s k)
