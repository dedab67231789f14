-- ===== src/Application/Outbox/Relay.antt =====
-- The guarantees of the relay: at-least-once delivery, no blocking, and its counters.
use answer_service.Base.{
  ℕ, ◌≡◌, refl, sym, ◌∙◌, ap, ◌⊎◌, inl, inr, Bool, true, false, List, [], ◌∷◌, nat_eq, Bool-cases,
}
use answer_service.Errors.{ok, Result-cases}
use answer_service.Errors.Hierarchy.{caught}
use answer_service.Application.Io.{Io, >>=-keeps}
use answer_service.Application.Ports.{OutboxMessage, OutboxGateway}
use answer_service.Application.Outbox.{attempt, settle, relay_loop, relay_outbox, answer}

-- `marked`: the row is processed. `delivered`: the transport has taken the message at least once.
-- The relay's two ports document: a publish that returns has delivered its message and none is ever
-- taken back; a mark marks no row but its own.
pub record RelayPorts {S : Type 0} (gateway : OutboxGateway S)
    (publisher : OutboxMessage → Io S (Unit {0})) (marked delivered : S → ℕ → Bool) : Type 0 where
  pub publish_delivers :
      (m : OutboxMessage) (s : S)
      → (publisher m s).0 ≡ ok tt
      → delivered (publisher m s).1 m.id ≡ true
  pub publish_keeps :
      (m : OutboxMessage) (s : S) (i : ℕ)
      → delivered s i ≡ true
      → delivered (publisher m s).1 i ≡ true
  pub publish_marks_none :
      (m : OutboxMessage) (s : S) (i : ℕ) → marked (publisher m s).1 i ≡ marked s i
  pub mark_only :
      (j : ℕ) (s : S) (i : ℕ)
      → marked (gateway.mark_processed j s).1 i ≡ true
      → (i ≡ j) ⊎ (marked s i ≡ true)
  pub mark_keeps_deliveries :
      (j : ℕ) (s : S) (i : ℕ)
      → delivered s i ≡ true
      → delivered (gateway.mark_processed j s).1 i ≡ true
  pub read_keeps_marks :
      (n : ℕ) (s : S) (i : ℕ) → marked (gateway.read_pending n s).1 i ≡ marked s i
  pub read_keeps_deliveries :
      (n : ℕ) (s : S) (i : ℕ) → delivered (gateway.read_pending n s).1 i ≡ delivered s i

module _ {S : Type 0} (gateway : OutboxGateway S)
    (publisher : OutboxMessage → Io S (Unit {0})) where
  -- What an attempt leaves, whichever way the publish ends.
  pub attempt-state :
      (m : OutboxMessage) (s : S) → (attempt gateway publisher m s).1 ≡ (publisher m s).1
  unfolding attempt
  attempt-state m s = elim (Result-cases (publisher m s).0) [
    | inl (_, e) ↦ rw e
    | inr (x, e) ↦ rw e (elim (Bool-cases (caught x)) [ inl c ↦ rw c | inr c ↦ rw c ])
  ]

module _ {S : Type 0} (gateway : OutboxGateway S) (publisher : OutboxMessage → Io S (Unit {0}))
    (marked delivered : S → ℕ → Bool) (ports : RelayPorts gateway publisher marked delivered) where
  -- No row is marked whose message was never delivered.
  abbrev pub Delivers : S → Type 0
  Delivers s = (i : ℕ) → marked s i ≡ true → delivered s i ≡ true

  pub record AtLeastOnce (s : S) : Type 0 where
    pub delivered_first : Delivers s

  attempt-true :
      (m : OutboxMessage) (s : S)
      → (attempt gateway publisher m s).0 ≡ ok true
      → (publisher m s).0 ≡ ok tt
  unfolding attempt
  attempt-true m s h = elim (Result-cases (publisher m s).0) [
    | inl (_, e) ↦ e
    | inr (x, e) ↦ elim (Bool-cases (caught x)) [
      | inl c ↦ cc (rw (e, c) at h)
      | inr c ↦ cc (rw (e, c) at h)
    ]
  ]

  publisher-Delivers : (m : OutboxMessage) (s : S) → Delivers s → Delivers (publisher m s).1
  publisher-Delivers m s h i marks =
      ports.publish_keeps m s i (h i (sym (ports.publish_marks_none m s i) ∙ marks))

  mark-Delivers :
      (j : ℕ) (s : S) → delivered s j ≡ true → Delivers s → Delivers (gateway.mark_processed j s).1
  mark-Delivers j s there h i marks = elim (ports.mark_only j s i marks) [
    | inl e ↦ ports.mark_keeps_deliveries j s i (rw e there)
    | inr old ↦ ports.mark_keeps_deliveries j s i (h i old)
  ]

  -- One round, over the outcome of its attempt.
  settle-Delivers :
      (m : OutboxMessage) (n : ℕ) (b : Bool) (s : S)
      → (b ≡ true → delivered s m.id ≡ true)
      → Delivers s
      → Delivers (settle gateway publisher m n b s).1
  unfolding settle
  settle-Delivers m n true s there h = elim (Result-cases (gateway.mark_processed m.id s).0) [
    | inl (_, e) ↦ rw e (mark-Delivers m.id s (there refl) h)
    | inr (x, e) ↦ rw e (mark-Delivers m.id s (there refl) h)
  ]
  settle-Delivers m n false s there h = h

  attempt-Delivers :
      (m : OutboxMessage) (s : S) → Delivers s → Delivers (attempt gateway publisher m s).1
  attempt-Delivers m s h = rw (attempt-state gateway publisher m s) (publisher-Delivers m s h)

  attempt-delivers :
      (m : OutboxMessage) (s : S) (b : Bool)
      → (attempt gateway publisher m s).0 ≡ ok b
      → b ≡ true
      → delivered (attempt gateway publisher m s).1 m.id ≡ true
  attempt-delivers m s b e t =
      rw (attempt-state gateway publisher m s)
        (ports.publish_delivers m s (attempt-true m s (e ∙ ap ok t)))

  relay_loop-Delivers :
      (ms : List OutboxMessage) (n : ℕ) (s : S)
      → Delivers s
      → Delivers (relay_loop gateway publisher ms n s).1
  unfolding relay_loop
  relay_loop-Delivers [] n s h = h
  relay_loop-Delivers (m ∷ ms) n s h =
      >>=-keeps Delivers (attempt gateway publisher m) _ s (attempt-Delivers m s h) λ b e.
        let t = (attempt gateway publisher m s).1 in
        >>=-keeps Delivers (settle gateway publisher m n b) _ t (round b e)
          λ n' _. relay_loop-Delivers ms n' (settle gateway publisher m n b t).1 (round b e)
    where
      round :
          (b : Bool)
          → (attempt gateway publisher m s).0 ≡ ok b
          → Delivers (settle gateway publisher m n b (attempt gateway publisher m s).1).1
      round b e =
          settle-Delivers m n b (attempt gateway publisher m s).1 (attempt-delivers m s b e)
            (attempt-Delivers m s h)

  relay_outbox-Delivers :
      (batch_size : ℕ) (s : S)
      → Delivers s
      → Delivers (relay_outbox gateway publisher batch_size s).1
  unfolding relay_outbox
  relay_outbox-Delivers batch_size s h =
      >>=-keeps Delivers (gateway.read_pending batch_size) _ s read λ ms _. answered ms
    where
      t : S
      t = (gateway.read_pending batch_size s).1

      read : Delivers t
      read i marks =
          ports.read_keeps_deliveries batch_size s i
          ∙ h i (sym (ports.read_keeps_marks batch_size s i) ∙ marks)

      answered : (ms : List OutboxMessage) → Delivers (answer gateway publisher ms t).1
      answered [] = read
      answered (m ∷ ms) =
          >>=-keeps Delivers (relay_loop gateway publisher (m ∷ ms) 0) _ t
            (relay_loop-Delivers (m ∷ ms) 0 t read) λ n _. relay_loop-Delivers (m ∷ ms) 0 t read

  -- However a tick of the relay ends, with any publish and any mark failing at any point: if no row
  -- was marked before without its message delivered, none is marked so afterwards.
  pub relay_outbox-AtLeastOnce :
      (batch_size : ℕ) (s : S)
      → AtLeastOnce s
      → AtLeastOnce (relay_outbox gateway publisher batch_size s).1
  relay_outbox-AtLeastOnce batch_size s h = record {
    delivered_first = relay_outbox-Delivers batch_size s h.delivered_first;
  }
