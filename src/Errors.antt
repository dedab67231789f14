-- ===== src/Errors.antt =====
-- The exceptions of the service (domain/*/errors.py, domain/common/error.py, application/error.py,
-- infrastructure/errors.py), as values: a call that may raise returns a `Result`.
pub mod Hierarchy
pub mod Status
use answer_service.Base.{◌≡◌, refl, Bool, true, false, ◌⊎◌, inl, inr}

-- One constructor for each class. `conversation_empty_answer` is conversation/errors.py's
-- EmptyAnswerError, and `empty_answer` indexing/errors.py's. `foreign` is every exception that is
-- no AppError: of the standard library, of a third-party package.
pub data Error : Type 0 where
  app_error domain_error domain_field_error inconsistent_time : Error
  indexing_domain_error invalid_task_transition duplicate_external_id empty_external_id : Error
  empty_question question_too_long empty_answer answer_too_long empty_category : Error
  invalid_content_hash negative_sync_count empty_failure_code empty_source_reference : Error
  search_domain_error empty_search_query search_query_too_long top_k_out_of_range : Error
  empty_category_filter invalid_score invalid_rank : Error
  analytics_domain_error empty_query_text query_text_too_long negative_results_count : Error
  negative_latency invalid_period empty_category_label empty_error_code : Error
  inconsistent_query_execution : Error
  conversation_domain_error conversation_empty_answer ungrounded_answer : Error
  application_error conversation_not_found pagination_error duplicate_inbox_message : Error
  invalid_source_file unsupported_source_format missing_source_columns : Error
  indexing_task_not_found : Error
  infrastructure_error unregistered_task outbox_publish_error repo_error : Error
  answer_generation_error search_index_error handler_not_found source_file_storage_error : Error
  foreign : Error

pub data Result {ℓ} (A : Type ℓ) : Type ℓ where
  ok : A → Result A
  err : Error → Result A

module _ {ℓ κ} {A : Type ℓ} {B : Type κ} where
  infixl 5 ◌>>=◌
  abbrev pub ◌>>=◌ : Result A → (A → Result B) → Result B
  ok value >>= next = next value
  err raised >>= next = err raised

-- The `raise` of a guard: an error where the test holds.
abbrev pub raise_if : Bool → Error → Result (Unit {0})
raise_if true e = err e
raise_if false e = ok tt

infixl 5 ◌>>◌
abbrev pub ◌>>◌ {κ} : {B : Type κ} → Result (Unit {0}) → Result B → Result B
guard >> next = guard >>= λ _. next

abbrev pub result_map {ℓ κ} : {A : Type ℓ} {B : Type κ} → (A → B) → Result A → Result B
result_map f (ok a) = ok (f a)
result_map f (err e) = err e

-- To split on a computed result and keep the equation.
pub Result-cases {ℓ} :
    {X : Type ℓ} (r : Result X) → ((x : X) × (r ≡ ok x)) ⊎ ((raised : Error) × (r ≡ err raised))
Result-cases (ok x) = inl (x, refl)
Result-cases (err raised) = inr (raised, refl)
