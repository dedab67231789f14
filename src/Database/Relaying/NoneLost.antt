-- ===== src/Database/Relaying/NoneLost.antt =====
-- No domain event is lost between the transactions of the relay: what is marked was delivered.
use answer_service.Base.{
  ℕ, ◌≡◌, refl, ◌∙◌, ap, subst, inl, inr, Bool, true, Option, nat_eq, Bool-cases,
}
use answer_service.Errors.{Result, ok, err, Result-cases}
use answer_service.Errors.Hierarchy.{caught}
use answer_service.Application.Io.{Io, >>=-keeps}
use answer_service.Application.Scope.{Scope, open_scope, on_store}
use answer_service.Application.Ports.{Environment, TransactionManager, OutboxMessage}
use answer_service.Application.Pipelines.{transaction_pipeline, run_command, events_pipeline}
use answer_service.Application.Pipelines.Atomicity.{IsAtomic, transaction_pipeline-settles}
use answer_service.Application.Outbox.{Dump, RelayOutboxResponse, publish, relay_outbox}
use answer_service.Application.Outbox.Relay.{relay_outbox-AtLeastOnce}
use answer_service.Application.Outbox.Preserved.{relay_outbox-preserves}
use answer_service.Database.Session.{Table}
use answer_service.Database.Outbox.{OutboxRecord, sql_outbox_gateway}
use answer_service.Database.Relaying.Marking.{
  NoneLost, RelayLaws, is_marked, outside, mark_processed-outside, sql_outbox_gateway-RelayPorts,
}
use answer_service.Database.Relaying.{default_batch_size, send_relay, relay_outbox_task}

module _ {S : Type 0} (env : Environment S) (table : Table S OutboxRecord)
    (manager : TransactionManager S) (dump : Dump) (publisher : OutboxMessage → Io S (Unit {0}))
    (working committed : S → ℕ → Option OutboxRecord) (delivered : S → ℕ → Bool)
    (laws : RelayLaws env table manager publisher working committed delivered) where
  abbrev relay : ℕ → Io S RelayOutboxResponse
  relay = relay_outbox (sql_outbox_gateway env table) publisher

  relay_outbox-committed : (n : ℕ) (s : S) → committed (relay n s).1 ≡ committed s
  unfolding sql_outbox_gateway
  relay_outbox-committed n s =
      relay_outbox-preserves (sql_outbox_gateway env table) publisher
        (λ t. committed t ≡ committed s) (λ m t h. laws.publish_committed m t ∙ h)
        (λ j t h.
          ap (λ o. o.0)
            (mark_processed-outside env table manager publisher working committed delivered laws j
              t)
          ∙ h)
        (λ k t h. ap (λ o. o.0) (laws.select_outside k t) ∙ h) n s refl

  relay_outbox-delivered :
      (n : ℕ) (s : S) (i : ℕ) → delivered s i ≡ true → delivered (relay n s).1 i ≡ true
  unfolding sql_outbox_gateway
  relay_outbox-delivered n s i =
      relay_outbox-preserves (sql_outbox_gateway env table) publisher (λ t. delivered t i ≡ true)
        (λ m t h. laws.publish_keeps m t i h)
        (λ j t h.
          ap (λ o. o.1 i)
            (mark_processed-outside env table manager publisher working committed delivered laws j
              t)
          ∙ h)
        (λ k t h. ap (λ o. o.1 i) (laws.select_outside k t) ∙ h) n s

  abbrev handled : ℕ → S → Result RelayOutboxResponse × Scope S
  handled n s =
      events_pipeline (publish env dump (sql_outbox_gateway env table)) n
        (λ batch_size. on_store (relay batch_size)) (open_scope s)

  -- The relay adds no event, so its pipelines publish none.
  handled-store : (n : ℕ) (s : S) → (handled n s).1.store ≡ (relay n s).1
  unfolding events_pipeline publish
  handled-store n s = elim (Result-cases (relay n s).0) [
    | inl (_, e) ↦ rw e refl
    | inr (x, e) ↦ rw e refl
  ]

  transaction_pipeline-delivered :
      (n : ℕ) (w t : Scope S) (result : Result RelayOutboxResponse)
      → delivered (transaction_pipeline manager n (λ _ _. (result, t)) w).1.store
        ≡ delivered t.store
  unfolding transaction_pipeline
  transaction_pipeline-delivered n w t (ok a) = elim (Result-cases (manager.commit t.store).0) [
    | inl (_, e) ↦ rw e (laws.commit_delivered t.store)
    | inr (x, e) ↦ rw e (laws.commit_delivered t.store)
  ]
  transaction_pipeline-delivered n w t (err x) = elim (Bool-cases (caught x)) [
    | inr foreign ↦ rw foreign refl
    | inl app ↦ rw app (elim (Result-cases (manager.rollback t.store).0) [
      | inl (_, e) ↦ rw e (laws.rollback_delivered t.store)
      | inr (y, e) ↦ rw e (laws.rollback_delivered t.store)
    ])
  ]

  -- After a relay whose transaction has ended in any way.
  ended-NoneLost :
      (n : ℕ) (s : S) (w : Scope S) (r : Result RelayOutboxResponse)
      → working s ≡ committed s
      → NoneLost committed delivered s
      → delivered w.store ≡ delivered (relay n s).1
      → IsAtomic working committed (open_scope s) (handled n s).1 r w
      → NoneLost committed delivered w.store
  ended-NoneLost n s w (ok _) fresh h same atomic = record {
    marked_delivered = λ i marks.
        let relayed =
          relay_outbox-AtLeastOnce (sql_outbox_gateway env table) publisher
            (λ t i. is_marked (working t i)) delivered
            (sql_outbox_gateway-RelayPorts env table manager publisher working committed delivered
              laws)
            n s
            (record {
              delivered_first = λ j was.
                  h.marked_delivered j
                    (subst (λ (f : ℕ → Option OutboxRecord). is_marked (f j) ≡ true) fresh was);
            }) in
        let written = atomic ∙ ap working (handled-store n s) in
        ap (λ (f : ℕ → Bool). f i) same
        ∙ relayed.delivered_first i
            (subst (λ (f : ℕ → Option OutboxRecord). is_marked (f i) ≡ true) written marks);
  }
  ended-NoneLost n s w (err _) fresh h same atomic = record {
    marked_delivered = λ i marks.
        ap (λ (f : ℕ → Bool). f i) same
        ∙ relay_outbox-delivered n s i (
            h.marked_delivered i
              (subst (λ (f : ℕ → Option OutboxRecord). is_marked (f i) ≡ true) atomic marks));
  }

  send_relay-NoneLost :
      (n : ℕ) (s : S)
      → working s ≡ committed s
      → NoneLost committed delivered s
      → NoneLost committed delivered
          (send_relay env table manager dump publisher n (open_scope s)).1.store
  unfolding send_relay run_command
  send_relay-NoneLost n s fresh h =
      let out = send_relay env table manager dump publisher n (open_scope s) in
      ended-NoneLost n s out.1 out.0 fresh h
        (transaction_pipeline-delivered n (open_scope s) (handled n s).1 (handled n s).0
          ∙ ap delivered (handled-store n s))
        (transaction_pipeline-settles manager working committed laws.unit_of_work n (open_scope s)
          (handled n s).1 (handled n s).0
          (ap committed (handled-store n s) ∙ relay_outbox-committed n s))

  relay_outbox_task-NoneLost :
      (s : S)
      → working s ≡ committed s
      → NoneLost committed delivered s
      → NoneLost committed delivered
          (relay_outbox_task env table manager dump publisher (open_scope s)).1.store
  unfolding relay_outbox_task
  relay_outbox_task-NoneLost s fresh h =
      let sent = send_relay-NoneLost default_batch_size s fresh h in
      >>=-keeps (λ (w : Scope S). NoneLost committed delivered w.store)
        (send_relay env table manager dump publisher default_batch_size) _ (open_scope s) sent
        λ _ _. sent

  -- The database and the broker through any number of relays, each in a session of its own, with any
  -- work of others between them.
  pub data Reached (start : S) : S → Type 0 where
    begin : Reached start start
    -- A relay in a new session, which shows what has been committed.
    relayed :
        (s t : S)
        → Reached start s
        → outside committed delivered t ≡ outside committed delivered s
        → working t ≡ committed t
        → Reached start (relay_outbox_task env table manager dump publisher (open_scope t)).1.store
    -- Others add and delete messages, and give the broker more; only the relay marks.
    worked :
        (s t : S)
        → Reached start s
        → ((i : ℕ) → is_marked (committed t i) ≡ true → is_marked (committed s i) ≡ true)
        → ((i : ℕ) → delivered s i ≡ true → delivered t i ≡ true)
        → Reached start t

  -- However the relays end, with any publish, mark or commit failing at any point: from a database
  -- that shows no message as processed which the broker was not given, none is ever reached that does.
  pub Reached-NoneLost :
      (start s : S)
      → NoneLost committed delivered start
      → Reached start s
      → NoneLost committed delivered s
  Reached-NoneLost start s h begin = h
  Reached-NoneLost start s h (relayed s' t before same fresh) =
      let ih = Reached-NoneLost start s' h before in
      relay_outbox_task-NoneLost t fresh (record {
        marked_delivered = λ i marks.
            ap (λ o. o.1 i) same
            ∙ ih.marked_delivered i (
                subst (λ (f : ℕ → Option OutboxRecord). is_marked (f i) ≡ true) (ap (λ o. o.0) same)
                  marks);
      })
  Reached-NoneLost start s h (worked s' t before unmarked more) =
      let ih = Reached-NoneLost start s' h before in
      record { marked_delivered = λ i marks. more i (ih.marked_delivered i (unmarked i marks)) }
