-- ===== src/Tests/Relay.antt =====
-- The outbox relay, the publisher and the mediator.
use answer_service.Base.{
  ℕ, ◌≡◌, refl, inl, inr, Bool, true, none, List, [], ◌∷◌, contains, nat_eq, nat_beq, if◌then◌else◌,
  arith,
}
use answer_service.Errors.{ok, err, outbox_publish_error}
use answer_service.Errors.Hierarchy.{caught}
use answer_service.Application.Io.{Io}
use answer_service.Application.Ports.{OutboxMessage, OutboxGateway}
use answer_service.Application.Outbox.{relay_outbox}
use answer_service.Application.Outbox.Relay.{RelayPorts}
use answer_service.Application.Outbox.Progress.{Marks, relay_outbox-not_blocked}
use answer_service.Indexing.Event.{event_type, indexing_started}
use answer_service.Mediator.Registry.Production.{
  RequestType, run_indexing, HandlerType, PipelineType, transaction_pipeline, events_pipeline,
  query_recording_pipeline, send_request, send_request_lem,
}
use answer_service.Mediator.Chain.{HandleNext, Pipeline}

pub record Queue : Type 0 where
  pub waiting : List OutboxMessage
  pub done : List ℕ
  pub sent : List ℕ

abbrev queue_gateway : OutboxGateway Queue
queue_gateway = record {
  add = λ m s. (ok tt, s);
  read_pending = λ n s. (ok s.waiting, s);
  mark_processed = λ i s. (ok tt, record s { done = i ∷ s.done });
}

-- Refuses the message with id 0.
abbrev queue_publisher : OutboxMessage → Io Queue (Unit {0})
queue_publisher m s =
    if nat_beq m.id 0
    then (err outbox_publish_error, s)
    else (ok tt, record s { sent = m.id ∷ s.sent })

abbrev is_done : Queue → ℕ → Bool
is_done s i = contains s.done i

abbrev is_sent : Queue → ℕ → Bool
is_sent s i = contains s.sent i

queue-RelayPorts : RelayPorts queue_gateway queue_publisher is_done is_sent
queue-RelayPorts = record {
  publish_delivers = λ m s h. ground arith;
  publish_keeps = λ m s i h. ground arith;
  publish_marks_none = λ m s i. ground arith;
  mark_only = λ j s i h. ground arith;
  mark_keeps_deliveries = λ j s i h. h;
  read_keeps_marks = λ n s i. refl;
  read_keeps_deliveries = λ n s i. refl;
}

queue-Marks : Marks queue_gateway is_done
queue-Marks = record {
  mark_marks = λ j s h. ground arith;
  mark_keeps_marks = λ j s i h. ground arith;
}

abbrev message : ℕ → OutboxMessage
unfolding event_type
message i = record {
  id = i;
  event_type = event_type (indexing_started 3);
  payload = [];
  created_at = 1;
  processed_at = none;
}

abbrev two_waiting : Queue
two_waiting = record { waiting = message 0 ∷ message 1 ∷ []; done = []; sent = [] }

abbrev after_tick : Queue
after_tick = (relay_outbox queue_gateway queue_publisher 10 two_waiting).1

takes_1 : (s : Queue) → (queue_publisher (message 1) s).0 ≡ ok tt
unfolding message
takes_1 s = refl

-- The message with id 1 is marked although the one before it was refused.
relay_outbox-not_blocked_example : is_done after_tick 1 ≡ true
unfolding relay_outbox caught message
relay_outbox-not_blocked_example =
    relay_outbox-not_blocked queue_gateway queue_publisher is_done is_sent queue-RelayPorts
      queue-Marks 10 two_waiting (message 1) (message 0 ∷ message 1 ∷ []) refl (inr (inl refl))
      takes_1 refl

-- A handler that notes itself, and pipelines that note themselves before it.
abbrev noting_handler : HandlerType → HandleNext (List ℕ) RequestType ℕ
noting_handler h request s = (ok 0, 3 ∷ s)

abbrev noting_pipeline : PipelineType → Pipeline (List ℕ) RequestType ℕ
noting_pipeline transaction_pipeline request next s = next request (1 ∷ s)
noting_pipeline events_pipeline request next s = next request (2 ∷ s)
noting_pipeline query_recording_pipeline request next s = next request (4 ∷ s)

send_request_lem_example :
    send_request (λ t. t) noting_handler noting_pipeline run_indexing ≡ (λ s. (ok 0, 3 ∷ 2 ∷ 1 ∷ s))
send_request_lem_example = send_request_lem (λ t. t) noting_handler noting_pipeline run_indexing
