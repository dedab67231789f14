-- ===== src/Errors/Status.antt =====
-- presentation/http/v1/common/exception_handler.py: the status code and the body that answer an
-- exception.
use answer_service.Base.{
  ℕ, ◌≡◌, refl, ◌↔◌, Bool, true, false, Option, none, some, leb, ltb, nat_beq, arith, if◌then◌else◌,
}
use answer_service.Errors.{
  Error, app_error, domain_error, domain_field_error, inconsistent_time, indexing_domain_error,
  invalid_task_transition, duplicate_external_id, empty_external_id, empty_question,
  question_too_long, empty_answer, answer_too_long, empty_category, invalid_content_hash,
  negative_sync_count, empty_failure_code, empty_source_reference, search_domain_error,
  empty_search_query, search_query_too_long, top_k_out_of_range, empty_category_filter,
  invalid_score, invalid_rank, analytics_domain_error, empty_query_text, query_text_too_long,
  negative_results_count, negative_latency, invalid_period, empty_category_label, empty_error_code,
  inconsistent_query_execution, conversation_domain_error, conversation_empty_answer,
  ungrounded_answer, application_error, conversation_not_found, pagination_error,
  duplicate_inbox_message, invalid_source_file, unsupported_source_format, missing_source_columns,
  indexing_task_not_found, infrastructure_error, unregistered_task, outbox_publish_error,
  repo_error, answer_generation_error, search_index_error, handler_not_found,
  source_file_storage_error, foreign,
}
use answer_service.Errors.Hierarchy.{is_field_error}

-- What reaches the handler: an error of the service, or one of the two validation errors of the
-- web framework. (`foreign` stands for a class that is in no table.)
pub data Exception : Type 0 where
  service : Error → Exception
  pydantic_validation request_validation : Exception

-- `_ERROR_MAPPING.get(type(exc))`: the lookup is by the exact class.
unfoldable pub error_mapping : Exception → Option ℕ
error_mapping (service domain_field_error) = some 400
error_mapping (service inconsistent_time) = some 400
error_mapping (service empty_external_id) = some 400
error_mapping (service empty_question) = some 400
error_mapping (service question_too_long) = some 400
error_mapping (service empty_answer) = some 400
error_mapping (service answer_too_long) = some 400
error_mapping (service empty_category) = some 400
error_mapping (service invalid_content_hash) = some 400
error_mapping (service negative_sync_count) = some 400
error_mapping (service empty_failure_code) = some 400
error_mapping (service empty_source_reference) = some 400
error_mapping (service empty_search_query) = some 400
error_mapping (service search_query_too_long) = some 400
error_mapping (service top_k_out_of_range) = some 400
error_mapping (service empty_category_filter) = some 400
error_mapping (service invalid_score) = some 400
error_mapping (service invalid_rank) = some 400
error_mapping (service empty_query_text) = some 400
error_mapping (service query_text_too_long) = some 400
error_mapping (service negative_results_count) = some 400
error_mapping (service negative_latency) = some 400
error_mapping (service invalid_period) = some 400
error_mapping (service empty_category_label) = some 400
error_mapping (service indexing_task_not_found) = some 404
error_mapping (service conversation_not_found) = some 404
error_mapping (service invalid_task_transition) = some 409
error_mapping (service duplicate_inbox_message) = some 409
error_mapping (service duplicate_external_id) = some 409
error_mapping (service unsupported_source_format) = some 415
error_mapping pydantic_validation = some 422
error_mapping request_validation = some 422
error_mapping (service pagination_error) = some 422
error_mapping (service invalid_source_file) = some 422
error_mapping (service missing_source_columns) = some 422
error_mapping (service app_error) = some 500
error_mapping (service domain_error) = some 500
error_mapping (service indexing_domain_error) = some 500
error_mapping (service search_domain_error) = some 500
error_mapping (service analytics_domain_error) = some 500
error_mapping (service application_error) = some 500
error_mapping (service infrastructure_error) = some 500
error_mapping (service handler_not_found) = some 500
error_mapping (service unregistered_task) = some 500
error_mapping (service repo_error) = some 503
error_mapping (service search_index_error) = some 503
error_mapping (service outbox_publish_error) = some 503
error_mapping (service source_file_storage_error) = some 503
error_mapping (service answer_generation_error) = some 503
error_mapping (service _) = none

-- The body of an answer: the exception's own text, with or without the framework's details, or a
-- fixed sentence.
pub data Body : Type 0 where
  own_text own_text_rich request_validation_failed unavailable internal : Body

pub record Response : Type 0 where
  pub status_code : ℕ
  pub body : Body

or_internal : Option ℕ → ℕ
or_internal (some code) = code
or_internal none = 500

-- `_ERROR_MAPPING.get(type(exc), HTTP_500_INTERNAL_SERVER_ERROR)`
unfoldable pub status_of : Exception → ℕ
unfolding error_mapping or_internal
status_of exc = or_internal (error_mapping exc)

body_of_status : ℕ → Body
body_of_status code =
    if nat_beq code 503 then unavailable else if ltb code 500 then own_text else internal

body_of : Exception → ℕ → Body
unfolding body_of_status
body_of request_validation code = request_validation_failed
body_of pydantic_validation code = own_text_rich
body_of (service e) code = body_of_status code

-- `ExceptionHandler._handle`
unfoldable pub handle : Exception → Response
unfolding status_of body_of
handle exc = record { status_code = status_of exc; body = body_of exc (status_of exc) }

-- A fixed sentence that says nothing of the exception.
abbrev pub says_nothing : Body → Bool
says_nothing internal = true
says_nothing unavailable = true
says_nothing _ = false

-- An answer of 500 or above has one of the two sentences that say nothing of the exception, and an
-- answer below 500 has neither.
pub handle_hides_internals :
    (exc : Exception) → says_nothing (handle exc).body ≡ leb 500 (handle exc).status_code
unfolding handle
handle_hides_internals pydantic_validation = refl
handle_hides_internals request_validation = refl
handle_hides_internals (service app_error) = refl
handle_hides_internals (service _) = refl

-- The classes that the table leaves out.
abbrev pub is_unlisted : Error → Bool
is_unlisted empty_error_code = true
is_unlisted inconsistent_query_execution = true
is_unlisted conversation_domain_error = true
is_unlisted conversation_empty_answer = true
is_unlisted ungrounded_answer = true
is_unlisted foreign = true
is_unlisted _ = false

-- A class has no entry in the table of status codes exactly if it is one of five classes of the
-- service's own (`is_unlisted`) or stands outside its hierarchy.
pub error_mapping-none : (e : Error) → error_mapping (service e) ≡ none ↔ is_unlisted e ≡ true
unfolding error_mapping
error_mapping-none app_error = ground arith
error_mapping-none _ = ground arith

-- A DomainFieldError answers 400 if its class is in the table, and 500 if the table leaves it out.
pub field_error-status :
    (e : Error)
    → is_field_error e ≡ true
    → (handle (service e)).status_code ≡ (if is_unlisted e then 500 else 400)
unfolding is_field_error handle
field_error-status app_error h = ground arith
field_error-status _ h = ground arith
