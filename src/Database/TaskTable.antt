-- ===== src/Database/TaskTable.antt =====
-- The gateway of tasks gives the handlers what they rely on.
use answer_service.Base.{ℕ, nat_eq, ◌≡◌, refl, sym, ◌∙◌, ap, Option, none, some, List, nat_beq}
use answer_service.Errors.{Result, ok}
use answer_service.Application.Ports.{Environment}
use answer_service.Application.Handlers.Settled.{TaskLaws}
use answer_service.Indexing.Task.{IndexingTask}
use answer_service.Database.Session.{
  Table, KeyLaws, attempt, attempt-eq-ok, one_of, one_or_none, rows_of,
}
use answer_service.Database.Tasks.{sql_task_gateway}

pub one_of_rows : {R : Type 0} (o : Option R) → one_or_none (rows_of o) ≡ some o
one_of_rows none = refl
one_of_rows (some r) = refl

module _ {S : Type 0} (table : Table S IndexingTask) (lookup : S → ℕ → Option IndexingTask)
    (laws : KeyLaws table (λ t. t.id) lookup) where
  -- A read by id that returns has found what the session shows, and leaves it as it is.
  pub read_by_id-eq-ok :
      (i : ℕ) (s t : S) (found : Option IndexingTask)
      → attempt (λ s. one_of (table.select (λ t. nat_beq t.id i) s)) s ≡ (ok found, t)
      → (found ≡ lookup s i) × (lookup t ≡ lookup s)
  read_by_id-eq-ok i s t found h =
      go (table.select (λ t. nat_beq t.id i) s).0 (table.select (λ t. nat_beq t.id i) s).1 refl
        (attempt-eq-ok (λ s. one_of (table.select (λ t. nat_beq t.id i) s)) s t found h)
    where
      go :
          (o : Option (List IndexingTask)) (u : S)
          → table.select (λ t. nat_beq t.id i) s ≡ (o, u)
          → one_of (o, u) ≡ (some found, t)
          → (found ≡ lookup s i) × (lookup t ≡ lookup s)
      go none u e k =
          let no : ⊥ = cc (ap (λ (q : Option (Option IndexingTask) × S). q.0) k) in elim no [ ]
      go (some rs) u e k =
          let (rows, same) = laws.selects_key i s u rs e in
          let one : one_or_none rs ≡ some found =
            ap (λ (q : Option (Option IndexingTask) × S). q.0) k in
          let all : some (lookup s i) ≡ some found =
            sym (one_of_rows (lookup s i)) ∙ ap one_or_none (sym rows) ∙ one in
          let at : u ≡ t = ap (λ (q : Option (Option IndexingTask) × S). q.1) k in
          (cc all, ap lookup (sym at) ∙ same)

  -- Over a table with these laws, the gateway of tasks satisfies the laws by which the handlers of
  -- tasks are proved: a read finds what the session shows, and an update puts the task under its id.
  pub sql_task_gateway-TaskLaws :
      (env : Environment S) → TaskLaws env (sql_task_gateway table) lookup
  unfolding sql_task_gateway
  sql_task_gateway-TaskLaws env = record {
    lookup_id = λ s i t h. laws.lookup_key s i t h;
    read_ok = λ s t i found h.
        let (finds, same) = read_by_id-eq-ok i s t found h in
        (finds, ap (λ (f : ℕ → Option IndexingTask). f i) same);
    update_ok = λ s t task h.
        ap (λ (q : Result (Unit {0}) × S). lookup q.1 task.id) (sym h) ∙ laws.changes_key task s;
  }
