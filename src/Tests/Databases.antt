-- ===== src/Tests/Databases.antt =====
-- The gateways over tables in memory.
use answer_service.Base.{
  ℕ, zero, suc, ◌≡◌, ◌≤◌, refl, sym, ◌∙◌, ap, subst, Bool, true, Option, none, some, List, [], ◌∷◌,
  All, length, ◌==◌, ==_refl, nat_eq, Bool-cases, inl, inr, if◌then◌else◌, arith,
}
use answer_service.Base.Text.{Text, text}
use answer_service.Base.Dict.{get}
use answer_service.Application.Scope.{Scope}
use answer_service.Application.Ports.{Environment}
use answer_service.Application.Handlers.Reaper.{reap_stuck_tasks}
use answer_service.Application.Handlers.Sync.Laws.{seal}
use answer_service.Indexing.Values.{ExternalId, external_id_eq, empty_stats, content_hash}
use answer_service.Indexing.Fingerprint.{Digest, content_hash_of}
use answer_service.Indexing.Pair.{QaPair}
use answer_service.Indexing.Task.{IndexingTask, running}
use answer_service.Search.Hybrid.{QaPairView}
use answer_service.Database.Session.{Table, TableLaws, SelectLaws, on_row, row_of, kept}
use answer_service.Database.Tasks.{sql_task_gateway}
use answer_service.Database.Reaping.{Reaped, reap_stuck_tasks-Reaped}
use answer_service.Database.Outbox.{OutboxRecord}
use answer_service.Database.Catalog.{hashes_from, sql_catalog_gateway}
use answer_service.Database.Catalog.Reads.{get-read_fingerprints}
use answer_service.Tests.Data.{a_source, id_a, pair_a}

module _ {R : Type 0} (key : R → ℕ) where
  -- A table that holds the versions of its rows, the newest one first.
  abbrev pub find : List R → ℕ → Option R
  find [] k = none
  find (r ∷ rs) k = if key r == k then some r else find rs k

  abbrev pub revised : (R → Bool) → (R → R) → List R → List R
  revised p f [] = []
  revised p f (r ∷ rs) = (if p r then f r else r) ∷ revised p f rs

  abbrev pub first_if : (R → Bool) → ℕ → List R → List R
  first_if p zero rs = []
  first_if p (suc n) [] = []
  first_if p (suc n) (r ∷ rs) = if p r then r ∷ [] else []

  abbrev versions : Table (List R) R
  versions = record {
    add = λ r s. r ∷ s;
    select = λ p s. (some s, s);
    select_columns = λ p s. (some s, s);
    select_first = λ p order_by limit s. (some (first_if p limit s), s);
    delete_where = λ p s. (some tt, s);
    update_where = λ p f s. (some tt, revised p f s);
    changed = λ r s. r ∷ s;
  }

  first_if-found :
      (p : R → Bool) (limit : ℕ) (s : List R)
      → All (λ r. (p r ≡ true) × (find s (key r) ≡ some r)) (first_if p limit s)
        × (length (first_if p limit s) ≤ limit)
  first_if-found p zero s = (tt, omega arith)
  first_if-found p (suc n) [] = (tt, omega arith)
  first_if-found p (suc n) (r ∷ rs) = elim (Bool-cases (p r)) [
    | inl e ↦ rw e (((e, rw (==_refl (key r)) refl), tt), omega arith)
    | inr e ↦ rw e (tt, omega arith)
  ]

  find-revised :
      (k : ℕ) (f : R → R) (s : List R)
      → ((r : R) → key (f r) ≡ key r)
      → (j : ℕ)
      → find (revised (λ r. key r == k) f s) j ≡ (if k == j then on_row f (find s j) else find s j)
  find-revised k f [] same j = ground arith
  find-revised k f (r ∷ rs) same j = ground (arith, same r, find-revised k f rs same j)

  pub versions-TableLaws : TableLaws versions key find
  versions-TableLaws = record {
    selects_first = λ p order_by limit s t rs h.
        let e : some (first_if p limit s) ≡ some rs =
          ap (λ (q : Option (List R) × List R). q.0) h in
        let same : first_if p limit s ≡ rs = cc e in
        let stays : s ≡ t = ap (λ (q : Option (List R) × List R). q.1) h in
        let (found, few) = first_if-found p limit s in
        (
          subst (λ (xs : List R). All (λ r. (p r ≡ true) × (find s (key r) ≡ some r)) xs) same
              found,
          rw (sym same) few,
          sym (ap (λ (x : List R). find x) stays),
        );
    changes = λ r s k. refl;
    updates = λ k f s t same h j.
        let wrote : revised (λ r. key r == k) f s ≡ t =
          ap (λ (q : Option (Unit {0}) × List R). q.1) h in
        ap (λ (x : List R). find x j) (sym wrote) ∙ find-revised k f s same j;
  }

-- Every read of the clock gives this moment.
abbrev pub stopped : {S : Type 0} → Environment S
stopped = record { now = λ s. (100, s); uuid4 = λ s. (0, s) }

abbrev a_running : IndexingTask
a_running = record {
  id = 3;
  created_at = 1;
  updated_at = 1;
  source = a_source;
  status = running;
  started_at = some 5;
  finished_at = none;
  stats = empty_stats;
  failure = none;
}

abbrev tasks_scope : Scope (List IndexingTask)
tasks_scope = record { store = a_running ∷ []; events = [] }

reap_stuck_tasks-Reaped_example : Reaped (find (λ t. t.id)) 90 10 (a_running ∷ []) (
    reap_stuck_tasks stopped (sql_task_gateway (versions (λ t. t.id))) 10 10 (text "m") tasks_scope)
reap_stuck_tasks-Reaped_example =
    reap_stuck_tasks-Reaped stopped (versions (λ t. t.id)) (find (λ t. t.id))
      (versions-TableLaws (λ t. t.id)) (λ s. refl) 10 10 (text "m") tasks_scope

abbrev pub record_of : ℕ → OutboxRecord
record_of i = record { id = i; event_type = []; payload = []; created_at = i; processed_at = none }

-- A table of one pair at most.
abbrev pair_at : Option QaPair → ExternalId → Option QaPair
pair_at none i = none
pair_at (some p) i = if p.id == i then some p else none

abbrev pair_if : (QaPair → Bool) → Option QaPair → List QaPair
pair_if c none = []
pair_if c (some p) = if c p then p ∷ [] else []

abbrev one_pair : Table (Option QaPair) QaPair
one_pair = record {
  add = λ r s. some r;
  select = λ c s. (some (pair_if c s), s);
  select_columns = λ c s. (some (pair_if c s), s);
  select_first = λ c order_by limit s. (some [], s);
  delete_where = λ c s. (some tt, none);
  update_where = λ c f s. (some tt, s);
  changed = λ r s. some r;
}

pair_at-id : (s : Option QaPair) (i : ExternalId) (p : QaPair) → pair_at s i ≡ some p → p.id ≡ i
pair_at-id none i p h = ground arith
pair_at-id (some q) i p h = ground (arith, external_id_eq.beq_iff q.id i)

row_of-pair_if :
    (c : QaPair → Bool) (s : Option QaPair) (i : ExternalId)
    → row_of (λ p. p.id) i (pair_if c s) ≡ kept c (pair_at s i)
row_of-pair_if c none i = refl
row_of-pair_if c (some p) i = ground arith

one_pair-SelectLaws : SelectLaws (λ p. p.id) one_pair pair_at
one_pair-SelectLaws = record {
  stored_key = λ s k r h. pair_at-id s k r h;
  selects = λ c s t rs h k.
      let e : some (pair_if c s) ≡ some rs =
        ap (λ (q : Option (List QaPair) × Option QaPair). q.0) h in
      let same : pair_if c s ≡ rs = cc e in
      ap (λ (xs : List QaPair). row_of (λ p. p.id) k xs) (sym same) ∙ row_of-pair_if c s k;
}

abbrev view_a : QaPairView
view_a = record {
  external_id = text "a";
  question = text "a";
  answer = text "yes";
  category = text "x";
}

abbrev zeros : Text
zeros = text "0000000000000000000000000000000000000000000000000000000000000000"

abbrev constant_digest : Digest
constant_digest s = zeros

get-read_fingerprints_example :
    get ((id_a, record { value = zeros }) ∷ []) id_a
    ≡ seal constant_digest (pair_at (some pair_a) id_a)
unfolding sql_catalog_gateway hashes_from content_hash_of content_hash
get-read_fingerprints_example =
    get-read_fingerprints one_pair pair_at one_pair-SelectLaws constant_digest (λ s. refl)
      (some pair_a) (some pair_a) ((id_a, record { value = zeros }) ∷ []) refl id_a
