-- ===== src/Mediator/Registry/Production.antt =====
-- setup/ioc/providers/mediator_provider.py: the registry that the service runs with.
use answer_service.Base.{
  ◌≡◌, refl, Bool, true, false, not, none, some, [], ◌∷◌, Eq, ◌==◌, if◌then◌else◌, Bool-cases, inl,
  inr,
}
use mathlib.Core.Bool.{decide, decide_iff}
use answer_service.Errors.{handler_not_found}
use answer_service.Application.Io.{Io, raise}
use answer_service.Mediator.Chain.{HandleNext, Pipeline, build_two, build_one, build_none}
use answer_service.Mediator.Registry.{
  Registry, add_request_handler, add_pipeline_handlers, get_request_handler, get_pipeline_handlers,
  send,
}

-- The request classes, and the markers that they inherit from.
pub data RequestType : Type 0 where
  base_request command query recordable_query : RequestType
  enqueue_indexing mark_indexing_running run_indexing mark_indexing_failed : RequestType
  relay_outbox reap_stuck_tasks upsert_qa_pair remove_qa_pair : RequestType
  get_indexing_task search_qa_pairs ask_question get_statistics : RequestType
  list_unanswered_queries list_query_logs : RequestType

-- The decision on `type(a) is type(b)`.
unfoldable pub RequestType-discrete : Discrete RequestType
RequestType-discrete = hlevel

instance abbrev pub request_type_eq : Eq RequestType
unfolding RequestType-discrete
request_type_eq = record {
  beq = λ a b. decide (RequestType-discrete a b);
  beq_iff = λ a b. decide_iff (RequestType-discrete a b);
}

-- The handler classes, named by the request that they handle, and the pipeline classes.
pub data HandlerType : Type 0 where
  handler_of : RequestType → HandlerType

pub data PipelineType : Type 0 where
  transaction_pipeline events_pipeline query_recording_pipeline : PipelineType

-- `class X(Command[...])`, `class X(Query[...])`, `class X(RecordableQuery[...])`
abbrev pub is_command : RequestType → Bool
is_command command = true
is_command enqueue_indexing = true
is_command mark_indexing_running = true
is_command run_indexing = true
is_command mark_indexing_failed = true
is_command relay_outbox = true
is_command reap_stuck_tasks = true
is_command upsert_qa_pair = true
is_command remove_qa_pair = true
is_command _ = false

abbrev pub is_recordable : RequestType → Bool
is_recordable recordable_query = true
is_recordable search_qa_pairs = true
is_recordable ask_question = true
is_recordable _ = false

abbrev pub is_query : RequestType → Bool
is_query base_request = false
is_query t = not (is_command t)

-- `issubclass(request_type, registered_type)` for the two markers that pipelines are registered
-- against, and for the class itself.
abbrev pub issubclass : RequestType → RequestType → Bool
issubclass t command = is_command t
issubclass t recordable_query = is_recordable t
issubclass t base_request = true
issubclass t query = is_query t
issubclass t s = t == s

abbrev pub ServiceRegistry : Type 0
ServiceRegistry = Registry RequestType HandlerType PipelineType

abbrev pub empty_registry : ServiceRegistry
empty_registry = record { request_handlers = []; pipeline_handlers = [] }

abbrev bind_handler : RequestType → ServiceRegistry → ServiceRegistry
bind_handler t r = add_request_handler t (handler_of t) r

-- `make_registry`
unfoldable pub make_registry : ServiceRegistry
make_registry =
    let r0 : ServiceRegistry =
      add_pipeline_handlers command (transaction_pipeline ∷ events_pipeline ∷ []) empty_registry in
    let r1 = add_pipeline_handlers recordable_query (query_recording_pipeline ∷ []) r0 in
    let r2 = bind_handler enqueue_indexing r1 in
    let r3 = bind_handler mark_indexing_running r2 in
    let r4 = bind_handler run_indexing r3 in
    let r5 = bind_handler mark_indexing_failed r4 in
    let r6 = bind_handler relay_outbox r5 in
    let r7 = bind_handler reap_stuck_tasks r6 in
    let r8 = bind_handler upsert_qa_pair r7 in
    let r9 = bind_handler remove_qa_pair r8 in
    let r10 = bind_handler get_indexing_task r9 in
    let r11 = bind_handler search_qa_pairs r10 in
    let r12 = bind_handler ask_question r11 in
    let r13 = bind_handler get_statistics r12 in
    let r14 = bind_handler list_unanswered_queries r13 in
    let r15 = bind_handler list_query_logs r14 in r15

-- Every command runs in the transaction pipeline with the events pipeline inside it, every
-- recordable query in the recording pipeline, and no other request in any.
pub make_registry-pipelines :
    (t : RequestType)
    → get_pipeline_handlers issubclass make_registry t ≡ (
        if is_command t
        then transaction_pipeline ∷ events_pipeline ∷ []
        else if is_recordable t
        then query_recording_pipeline ∷ []
        else [])
unfolding make_registry get_pipeline_handlers request_type_eq decide
make_registry-pipelines base_request = refl
make_registry-pipelines _ = refl

-- A class that can be sent: no marker.
abbrev pub is_concrete : RequestType → Bool
is_concrete base_request = false
is_concrete command = false
is_concrete query = false
is_concrete recordable_query = false
is_concrete _ = true

-- Each class that can be sent has its handler, and a marker has none.
pub make_registry-handlers :
    (t : RequestType)
    → get_request_handler make_registry t ≡ (if is_concrete t then some (handler_of t) else none)
unfolding make_registry RequestType-discrete decide
make_registry-handlers base_request = refl
make_registry-handlers _ = refl

module _ {S Request Response : Type 0} (type_of : Request → RequestType)
    (resolve : HandlerType → HandleNext S Request Response)
    (resolve_pipeline : PipelineType → Pipeline S Request Response) where
  -- `sender.send`, over the production registry.
  unfoldable pub send_request : Request → Io S Response
  unfolding send
  send_request = send issubclass type_of resolve resolve_pipeline make_registry

  -- A command reaches its handler through the transaction pipeline and then the events pipeline; a
  -- recordable query through the recording pipeline; any other request reaches it directly; and an
  -- instance of a marker class raises HandlerNotFoundError and changes nothing.
  pub send_request_lem :
      (request : Request)
      → send_request request ≡ (
          let t = type_of request in
          if not (is_concrete t)
          then raise handler_not_found
          else if is_command t
          then resolve_pipeline transaction_pipeline request
              (λ r. resolve_pipeline events_pipeline r (resolve (handler_of t)))
          else if is_recordable t
          then resolve_pipeline query_recording_pipeline request (resolve (handler_of t))
          else resolve (handler_of t) request)
  unfolding send_request
  send_request_lem request = elim (Bool-cases (is_concrete (type_of request))) [
    | inr marker ↦ rw (make_registry-handlers (type_of request), marker)
    | inl concrete ↦
        rw
          (
            make_registry-handlers (type_of request),
            concrete,
            make_registry-pipelines (type_of request),
          )
          (elim (Bool-cases (is_command (type_of request))) [
            | inl c ↦ rw (c, build_two)
            | inr c ↦ rw c (elim (Bool-cases (is_recordable (type_of request))) [
              | inl q ↦ rw (q, build_one)
              | inr q ↦ rw (q, build_none)
            ])
          ])
  ]
