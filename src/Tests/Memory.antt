-- ===== src/Tests/Memory.antt =====
-- The ports in memory, and the laws that the properties ask of them.
use answer_service.Base.{
  ℕ, suc, ◌≡◌, refl, sym, ◌∙◌, ap, not, Option, none, some, List, [], ◌∷◌, ◌++◌, map, filter, ◌==◌,
  if◌then◌else◌, nat_beq, arith,
}
use answer_service.Base.Text.{Text}
use answer_service.Base.Dict.{get}
use answer_service.Errors.{Result, ok}
use answer_service.Application.Ports.{
  Environment, TransactionManager, TaskGateway, CatalogGateway, OutboxMessage, OutboxGateway,
  SourceFiles, SourceRow,
}
use answer_service.Application.Handlers.Sync.Laws.{seal, CatalogLaws}
use answer_service.Application.Handlers.Settled.{TaskLaws}
use answer_service.Application.Outbox.Bus.{OutboxTable}
use answer_service.Indexing.Values.{ExternalId, external_id_eq}
use answer_service.Indexing.Fingerprint.{fingerprint}
use answer_service.Application.Pipelines.Atomicity.{UnitOfWork}
use answer_service.Indexing.Pair.{QaPair}
use answer_service.Indexing.Planner.{Manifest}
use answer_service.Indexing.Task.{IndexingTask}
use answer_service.Tests.Data.{plain_digest, a_source}

pub record Memory : Type 0 where
  pub pairs : List QaPair
  pub staged : List ExternalId
  pub tasks : List IndexingTask
  pub saved : List IndexingTask
  pub outbox : List OutboxMessage
  pub clock : ℕ

abbrev pub memory_env : Environment Memory
memory_env = record {
  now = λ s. (s.clock, s);
  uuid4 = λ s. (s.clock, record s { clock = suc s.clock });
}

abbrev pub memory_manager : TransactionManager Memory
memory_manager = record {
  commit = λ s. (ok tt, record s { staged = []; saved = s.tasks });
  rollback = λ s. (ok tt, record s { staged = []; tasks = s.saved });
}

-- The newest version of a pair stands first.
abbrev pub find_pair : List QaPair → ExternalId → Option QaPair
find_pair [] i = none
find_pair (p ∷ ps) i = if p.id == i then some p else find_pair ps i

abbrev pub pair_of : Memory → ExternalId → Option QaPair
pair_of s = find_pair s.pairs

abbrev pub staged_of : Memory → List ExternalId
staged_of s = s.staged

abbrev pub memory_catalog : CatalogGateway Memory
memory_catalog = record {
  add = λ p s. (ok tt, record s { pairs = p ∷ s.pairs; staged = p.id ∷ s.staged });
  read_by_id = λ i s. (ok (find_pair s.pairs i), s);
  update = λ p s. (ok tt, record s { pairs = p ∷ s.pairs });
  delete_by_id = λ i s. (ok tt, record s { pairs = filter (λ p. not (i == p.id)) s.pairs });
  read_fingerprints = λ s. (ok (map (λ p. (p.id, fingerprint plain_digest p.content)) s.pairs), s);
}

pub find_pair-id :
    (ps : List QaPair) (i : ExternalId) (p : QaPair) → find_pair ps i ≡ some p → p.id ≡ i
find_pair-id [] i p h = ground arith
find_pair-id (q ∷ qs) i p h = ground (arith, find_pair-id qs i p, external_id_eq.beq_iff q.id i)

pub find_pair-filter :
    (ps : List QaPair) (i j : ExternalId)
    → find_pair (filter (λ p. not (i == p.id)) ps) j ≡ (if i == j then none else find_pair ps j)
find_pair-filter [] i j = ground arith
find_pair-filter (p ∷ ps) i j = ground (
  arith,
  find_pair-filter ps i j,
  external_id_eq.beq_iff i p.id,
  external_id_eq.beq_iff p.id j,
  external_id_eq.beq_iff i j,
)

pub get-find_pair :
    (ps : List QaPair) (j : ExternalId)
    → get (map (λ p. (p.id, fingerprint plain_digest p.content)) ps) j
      ≡ seal plain_digest (find_pair ps j)
get-find_pair [] j = refl
get-find_pair (p ∷ ps) j = ground (arith, get-find_pair ps j)

module _ {A : Type 0} {a b : A} {s t : Memory} where
  left : ◌≡◌ {A = Result A × Memory} (ok a, s) (ok b, t) → a ≡ b
  left h = let e : ok a ≡ ok b = ap (λ (q : Result A × Memory). q.0) h in cc e

  right : ◌≡◌ {A = Result A × Memory} (ok a, s) (ok b, t) → t ≡ s
  right h = sym (ap (λ (q : Result A × Memory). q.1) h)

pub memory_catalog-CatalogLaws :
    CatalogLaws memory_env memory_catalog plain_digest pair_of staged_of
memory_catalog-CatalogLaws = record {
  lookup_id = λ s i p h. find_pair-id s.pairs i p h;
  now_keeps = λ s. ((λ j. refl), refl);
  read_ok = λ s t i found h.
      let e = right h in
      ((λ _. sym (left h)), (λ j. ap (λ (m : Memory). pair_of m j) e), ap staged_of e);
  delete_ok =
      λ s t i h _. let e = right h in ((λ j. rw e (find_pair-filter s.pairs i j)), ap staged_of e);
  add_ok =
      λ s t p h. let e = right h in ((λ j. ap (λ (m : Memory). pair_of m j) e), ap staged_of e);
  update_ok =
      λ s t p h _. let e = right h in ((λ j. ap (λ (m : Memory). pair_of m j) e), ap staged_of e);
  fingerprints_ok = λ s t m h _.
      let e = right h in
      (
        (λ j. ap (λ (n : Manifest). get n j) (sym (left h)) ∙ get-find_pair s.pairs j),
        (λ j. ap (λ (n : Memory). pair_of n j) e),
        ap staged_of e,
      );
}

abbrev pub memory_outbox : OutboxGateway Memory
memory_outbox = record {
  add = λ m s. (ok tt, record s { outbox = s.outbox ++ m ∷ [] });
  read_pending = λ n s. (ok s.outbox, s);
  mark_processed = λ i s. (ok tt, s);
}

abbrev pub outbox_of : Memory → List OutboxMessage
outbox_of s = s.outbox

pub memory_outbox-OutboxTable : OutboxTable memory_env memory_outbox outbox_of
memory_outbox-OutboxTable = record {
  add_ok = λ m s h. refl;
  now_keeps = λ s. refl;
  uuid4_keeps = λ s. refl;
}

pub commit-keeps_outbox : (s : Memory) → outbox_of (memory_manager.commit s).1 ≡ outbox_of s
commit-keeps_outbox s = refl

abbrev pub find_task : List IndexingTask → ℕ → Option IndexingTask
find_task [] i = none
find_task (t ∷ ts) i = if nat_beq t.id i then some t else find_task ts i

abbrev pub memory_tasks : TaskGateway Memory
memory_tasks = record {
  add = λ t s. (ok tt, record s { tasks = t ∷ s.tasks });
  read_by_id = λ i s. (ok (find_task s.tasks i), s);
  update = λ t s. (ok tt, record s { tasks = t ∷ s.tasks });
  read_stuck = λ before n s. (ok s.tasks, s);
}

abbrev pub task_of : Memory → ℕ → Option IndexingTask
task_of s = find_task s.tasks

-- What the sessions of others show.
abbrev pub saved_task_of : Memory → ℕ → Option IndexingTask
saved_task_of s = find_task s.saved

pub memory-UnitOfWork : UnitOfWork memory_manager task_of saved_task_of
memory-UnitOfWork = record {
  commit_ok = λ s h. refl;
  commit_err = λ s e h. ground arith;
  rollback_keeps = λ s. refl;
}

pub find_task-id :
    (ts : List IndexingTask) (i : ℕ) (t : IndexingTask) → find_task ts i ≡ some t → t.id ≡ i
find_task-id [] i t h = ground arith
find_task-id (u ∷ us) i t h = ground (arith, find_task-id us i t)

pub memory_tasks-TaskLaws : TaskLaws memory_env memory_tasks task_of
memory_tasks-TaskLaws = record {
  lookup_id = λ s i t h. find_task-id s.tasks i t h;
  read_ok = λ s t i found h. (sym (left h), ap (λ (m : Memory). task_of m i) (right h));
  update_ok = λ s t task h. ap (λ (m : Memory). task_of m task.id) (right h) ∙ ground arith;
}

-- A storage that holds one file of one row, whatever its name.
abbrev pub one_row_files : SourceRow → SourceFiles Memory Text
one_row_files row = record {
  validate = λ c n s. (ok tt, s);
  read_rows = λ c s. (ok (row ∷ []), s);
  save = λ c n s. (ok a_source, s);
  open_source = λ r s. (ok [], s);
}
