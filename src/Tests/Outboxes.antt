-- ===== src/Tests/Outboxes.antt =====
-- The scheduled relay over a database and a broker in memory.
use answer_service.Base.{
  ℕ, ◌≡◌, refl, ap, Bool, Option, some, List, [], ◌∷◌, contains, nat_eq, nat_beq, if◌then◌else◌,
  arith,
}
use answer_service.Errors.{ok, err, outbox_publish_error}
use answer_service.Application.Io.{Io}
use answer_service.Application.Scope.{open_scope}
use answer_service.Application.Ports.{TransactionManager, OutboxMessage}
use answer_service.Database.Session.{Table, TableLaws}
use answer_service.Database.Outbox.{OutboxRecord}
use answer_service.Database.Relaying.{relay_outbox_task}
use answer_service.Database.Relaying.Marking.{NoneLost, RelayLaws}
use answer_service.Database.Relaying.NoneLost.{begin, relayed, Reached-NoneLost}
use answer_service.Tests.Commands.{empty_dump}
use answer_service.Tests.Databases.{find, revised, first_if, versions-TableLaws, record_of, stopped}

-- The rows of the open session, the rows that it has committed, and the messages of the broker.
pub record Store : Type 0 where
  pub rows : List OutboxRecord
  pub saved : List OutboxRecord
  pub sent : List ℕ

abbrev store_table : Table Store OutboxRecord
store_table = record {
  add = λ r s. record s { rows = r ∷ s.rows };
  select = λ p s. (some s.rows, s);
  select_columns = λ p s. (some s.rows, s);
  select_first = λ p order_by limit s. (some (first_if (λ r. r.id) p limit s.rows), s);
  delete_where = λ p s. (some tt, s);
  update_where = λ p f s. (some tt, record s { rows = revised (λ r. r.id) p f s.rows });
  changed = λ r s. record s { rows = r ∷ s.rows };
}

abbrev store_manager : TransactionManager Store
store_manager = record {
  commit = λ s. (ok tt, record s { saved = s.rows });
  rollback = λ s. (ok tt, record s { rows = s.saved });
}

-- Refuses the message with id 0.
abbrev store_publisher : OutboxMessage → Io Store (Unit {0})
store_publisher m s =
    if nat_beq m.id 0
    then (err outbox_publish_error, s)
    else (ok tt, record s { sent = m.id ∷ s.sent })

abbrev in_session : Store → ℕ → Option OutboxRecord
in_session s = find (λ r. r.id) s.rows

abbrev in_database : Store → ℕ → Option OutboxRecord
in_database s = find (λ r. r.id) s.saved

abbrev is_sent : Store → ℕ → Bool
is_sent s i = contains s.sent i

-- A statement over the store, read off its open session.
in_rows :
    {A : Type 0} {o q : Option A} {s t : Store}
    → ◌≡◌ {A = Option A × Store} (o, s) (q, t)
    → ◌≡◌ {A = Option A × List OutboxRecord} (o, s.rows) (q, t.rows)
in_rows {A = A} = ap (λ (x : Option A × Store). (x.0, x.1.rows))

store_table-TableLaws : TableLaws store_table (λ r. r.id) in_session
store_table-TableLaws = record {
  selects_first = λ p order_by limit s t rs h.
      (versions-TableLaws (λ r. r.id)).selects_first p order_by limit s.rows t.rows rs (in_rows h);
  changes = λ r s k. refl;
  updates = λ k f s t same h j.
      (versions-TableLaws (λ r. r.id)).updates k f s.rows t.rows same (in_rows h) j;
}

store-RelayLaws :
    RelayLaws stopped store_table store_manager store_publisher in_session in_database is_sent
store-RelayLaws = record {
  unit_of_work = record {
    commit_ok = λ s h. refl;
    commit_err = λ s e h. ground arith;
    rollback_keeps = λ s. refl;
  };
  rows = store_table-TableLaws;
  now_working = λ s. refl;
  now_outside = λ s. refl;
  select_working = λ n s. refl;
  select_outside = λ n s. refl;
  update_raised = λ p f s h. ground arith;
  update_outside = λ p f s. refl;
  publish_working = λ m s. ground arith;
  publish_committed = λ m s. ground arith;
  publish_delivers = λ m s h. ground arith;
  publish_keeps = λ m s i h. ground arith;
  commit_delivered = λ s. refl;
  rollback_delivered = λ s. refl;
}

abbrev one_waiting : Store
one_waiting = record { rows = record_of 1 ∷ []; saved = record_of 1 ∷ []; sent = [] }

abbrev relayed_once : Store
relayed_once =
    (relay_outbox_task stopped store_table store_manager empty_dump store_publisher
      (open_scope one_waiting)).1.store

Reached-NoneLost_example : NoneLost in_database is_sent relayed_once
Reached-NoneLost_example =
    Reached-NoneLost stopped store_table store_manager empty_dump store_publisher in_session
      in_database is_sent store-RelayLaws one_waiting relayed_once
      (record { marked_delivered = λ i h. ground arith })
      (relayed one_waiting one_waiting begin refl refl)
