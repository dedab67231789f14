-- ===== src/Database/Relaying/Marking.antt =====
-- The table of the outbox, in a session, behind the relay.
use answer_service.Base.{
  ℕ, ◌≡◌, refl, sym, ◌∙◌, ap, ◌⊎◌, inl, inr, Bool, true, false, not, Option, none, some, ◌==◌,
  nat_eq, nat_beq_iff, nat_beq, Bool-cases,
}
use answer_service.Errors.{ok}
use answer_service.Application.Io.{Io}
use answer_service.Application.Ports.{Environment, TransactionManager, OutboxMessage, OutboxGateway}
use answer_service.Application.Pipelines.Atomicity.{UnitOfWork}
use answer_service.Application.Outbox.Relay.{RelayPorts}
use answer_service.Database.Session.{Table, TableLaws}
use answer_service.Database.Outbox.{OutboxRecord, is_pending, mark, sql_outbox_gateway}

abbrev pub is_marked : Option OutboxRecord → Bool
is_marked none = false
is_marked (some r) = not (is_pending r)

module _ {S : Type 0} (committed : S → ℕ → Option OutboxRecord) (delivered : S → ℕ → Bool) where
  -- What other transactions and the consumers of the broker see.
  abbrev pub outside : S → (ℕ → Option OutboxRecord) × (ℕ → Bool)
  outside s = (committed s, delivered s)

  -- Every row that others see marked is of a message that the broker was given.
  pub record NoneLost (s : S) : Type 0 where
    pub marked_delivered : (i : ℕ) → is_marked (committed s i) ≡ true → delivered s i ≡ true

module _ {S : Type 0} (env : Environment S) (table : Table S OutboxRecord)
    (manager : TransactionManager S) (publisher : OutboxMessage → Io S (Unit {0}))
    (working committed : S → ℕ → Option OutboxRecord) (delivered : S → ℕ → Bool) where
  -- What the session and the broker document. The session shows the rows of its own transaction
  -- (`working`), and others see them once it commits (`committed`); a statement that raises has
  -- changed no row. The broker has the messages that it accepted, and no transaction takes one back.
  pub record RelayLaws : Type 0 where
    pub unit_of_work : UnitOfWork manager working committed
    pub rows : TableLaws table (λ r. r.id) working
    pub now_working : (s : S) → working (env.now s).1 ≡ working s
    pub now_outside :
        (s : S) → outside committed delivered (env.now s).1 ≡ outside committed delivered s
    pub select_working :
        (n : ℕ) (s : S)
        → working (table.select_first is_pending (λ r. some r.created_at) n s).1 ≡ working s
    pub select_outside :
        (n : ℕ) (s : S)
        → outside committed delivered (table.select_first is_pending (λ r. some r.created_at) n s).1
          ≡ outside committed delivered s
    pub update_raised :
        (p : OutboxRecord → Bool) (f : OutboxRecord → OutboxRecord) (s : S)
        → (table.update_where p f s).0 ≡ none
        → working (table.update_where p f s).1 ≡ working s
    pub update_outside :
        (p : OutboxRecord → Bool) (f : OutboxRecord → OutboxRecord) (s : S)
        → outside committed delivered (table.update_where p f s).1 ≡ outside committed delivered s
    pub publish_working : (m : OutboxMessage) (s : S) → working (publisher m s).1 ≡ working s
    pub publish_committed : (m : OutboxMessage) (s : S) → committed (publisher m s).1 ≡ committed s
    pub publish_delivers :
        (m : OutboxMessage) (s : S)
        → (publisher m s).0 ≡ ok tt
        → delivered (publisher m s).1 m.id ≡ true
    pub publish_keeps :
        (m : OutboxMessage) (s : S) (i : ℕ)
        → delivered s i ≡ true
        → delivered (publisher m s).1 i ≡ true
    pub commit_delivered : (s : S) → delivered (manager.commit s).1 ≡ delivered s
    pub rollback_delivered : (s : S) → delivered (manager.rollback s).1 ≡ delivered s

module _ {S : Type 0} (env : Environment S) (table : Table S OutboxRecord)
    (manager : TransactionManager S) (publisher : OutboxMessage → Io S (Unit {0}))
    (working committed : S → ℕ → Option OutboxRecord) (delivered : S → ℕ → Bool)
    (laws : RelayLaws env table manager publisher working committed delivered) where
  abbrev pub gateway : OutboxGateway S
  gateway = sql_outbox_gateway env table

  abbrev pub marked : S → ℕ → Bool
  marked s i = is_marked (working s i)

  -- A mark changes no row but its own.
  mark_processed-working :
      (j : ℕ) (s : S) (i : ℕ) → (i ≡ j) ⊎ (working (gateway.mark_processed j s).1 i ≡ working s i)
  unfolding sql_outbox_gateway
  mark_processed-working j s i = go updated.0 refl
    where
      updated : Option (Unit {0}) × S
      updated = table.update_where (λ r. nat_beq r.id j) (mark (env.now s).0) (env.now s).1

      row : {f g : ℕ → Option OutboxRecord} → f ≡ g → f i ≡ g i
      row = ap (λ (f : ℕ → Option OutboxRecord). f i)

      go : (o : Option (Unit {0})) → updated.0 ≡ o → (i ≡ j) ⊎ (working updated.1 i ≡ working s i)
      go none e = inr (row (laws.update_raised _ _ (env.now s).1 e ∙ laws.now_working s))
      go (some tt) e =
          let wrote =
            laws.rows.updates j (mark (env.now s).0) (env.now s).1 updated.1 (λ r. refl)
              (λ k. (e k, updated.1)) i in
          elim (Bool-cases (j == i)) [
            | inl hit ↦ inl (sym ((nat_beq_iff j i).0 hit))
            | inr miss ↦ inr (rw miss at wrote ∙ row (laws.now_working s))
          ]

  pub mark_processed-outside :
      (j : ℕ) (s : S)
      → outside committed delivered (gateway.mark_processed j s).1 ≡ outside committed delivered s
  unfolding sql_outbox_gateway
  mark_processed-outside j s = laws.update_outside _ _ (env.now s).1 ∙ laws.now_outside s

  -- The table of the outbox gives the relay what it relies on.
  pub sql_outbox_gateway-RelayPorts : RelayPorts gateway publisher marked delivered
  unfolding sql_outbox_gateway
  sql_outbox_gateway-RelayPorts = record {
    publish_delivers = laws.publish_delivers;
    publish_keeps = laws.publish_keeps;
    publish_marks_none =
        λ m s i. ap (λ (f : ℕ → Option OutboxRecord). is_marked (f i)) (laws.publish_working m s);
    mark_only = λ j s i h. elim (mark_processed-working j s i) [
      | inl own ↦ inl own
      | inr same ↦ inr (sym (ap is_marked same) ∙ h)
    ];
    mark_keeps_deliveries = λ j s i h. ap (λ o. o.1 i) (mark_processed-outside j s) ∙ h;
    read_keeps_marks =
        λ n s i. ap (λ (f : ℕ → Option OutboxRecord). is_marked (f i)) (laws.select_working n s);
    read_keeps_deliveries = λ n s i. ap (λ o. o.1 i) (laws.select_outside n s);
  }
