-- ===== src/Application/Outbox.antt =====
-- The outbox: infrastructure/adapters/common/retort_event_serializer.py and outbox_event_bus.py on
-- the writing side, application/commands/outbox/relay_outbox on the reading side.
pub mod Bus
pub mod Relay
pub mod Progress
pub mod Preserved
pub mod Publisher
use answer_service.Base.{
  ℕ, suc, ◌+◌, Bool, true, false, Option, none, some, List, [], ◌∷◌, length, if◌then◌else◌,
}
use answer_service.Base.Text.{Text}
use answer_service.Application.Io.{Io, pure, try_app_error, ◌>>=◌, ◌>>◌}
use answer_service.Application.Scope.{Scope, ask, on_store}
use answer_service.Application.Ports.{Environment, OutboxMessage, OutboxGateway}
use answer_service.Indexing.Event.{Event, event_type, set_event_id, set_event_date}

-- `json.dumps(_retort.dump(event))`: adaptix and json are not part of the repository.
abbrev pub Dump : Type 0
Dump = Event → Text

module _ {S : Type 0} (env : Environment S) (dump : Dump) where
  -- `RetortEventSerializer.serialize`
  unfoldable pub serialize : Event → Io (Scope S) OutboxMessage
  serialize e = do
    event_id ← ask env.uuid4
    event_date ← ask env.now
    id ← ask env.uuid4
    created_at ← ask env.now
    pure (record {
      id = id;
      event_type = event_type e.body;
      payload = dump (set_event_date event_date (set_event_id event_id e));
      created_at = created_at;
      processed_at = none;
    })

  -- `OutboxEventBus.publish`
  unfoldable pub publish : OutboxGateway S → List Event → Io (Scope S) (Unit {0})
  unfolding serialize
  publish gateway [] = pure tt
  publish gateway (e ∷ es) = do
    message ← serialize e
    on_store (gateway.add message)
    publish gateway es

pub record RelayOutboxResponse : Type 0 where
  pub published : ℕ
  pub total : ℕ

module _ {S : Type 0} (gateway : OutboxGateway S)
    (publisher : OutboxMessage → Io S (Unit {0})) where
  -- `try: publish` with `except AppError: continue`: whether the message was handed over.
  pub attempt : OutboxMessage → Io S Bool
  attempt message = try_app_error (publisher message >> pure true) (λ e. pure false)

  -- What follows the `try` in a round: the mark and the count.
  pub settle : OutboxMessage → ℕ → Bool → Io S ℕ
  settle message published true = do gateway.mark_processed message.id; pure (suc published)
  settle message published false = pure published

  -- The loop over `messages`.
  pub relay_loop : List OutboxMessage → ℕ → Io S ℕ
  unfolding attempt settle
  relay_loop [] published = pure published
  relay_loop (message ∷ rest) published = do
    delivered ← attempt message
    published' ← settle message published delivered
    relay_loop rest published'

  abbrev answer : List OutboxMessage → Io S RelayOutboxResponse
  answer [] = pure (record { published = 0; total = 0 })
  answer (m ∷ ms) = do
    published ← relay_loop (m ∷ ms) 0
    pure (record { published = published; total = length (m ∷ ms) })

  -- `RelayOutboxHandler.handle`
  unfoldable pub relay_outbox : (batch_size : ℕ) → Io S RelayOutboxResponse
  unfolding relay_loop
  relay_outbox batch_size = do messages ← gateway.read_pending batch_size; answer messages
