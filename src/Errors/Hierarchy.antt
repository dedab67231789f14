-- ===== src/Errors/Hierarchy.antt =====
-- The inheritance of the exceptions: the `class X(Base)` lines of the errors.py files, and what
-- `except AppError` catches.
use answer_service.Base.{
  ℕ, zero, suc, ◌≡◌, refl, Bool, true, false, Option, none, some, ◌||◌, ◌⊎◌, inl, inr, List, [],
  ◌∷◌,
}
use answer_service.Errors.{
  Error, app_error, domain_error, domain_field_error, indexing_domain_error,
  invalid_task_transition, duplicate_external_id, search_domain_error, analytics_domain_error,
  conversation_domain_error, ungrounded_answer, application_error, conversation_not_found,
  pagination_error, duplicate_inbox_message, invalid_source_file, unsupported_source_format,
  missing_source_columns, indexing_task_not_found, infrastructure_error, unregistered_task,
  outbox_publish_error, repo_error, answer_generation_error, search_index_error, handler_not_found,
  source_file_storage_error, foreign,
}

-- The base class of a class; `none` stands for a base outside the hierarchy.
unfoldable pub base : Error → Option Error
base app_error = none
base foreign = none
base domain_error = some app_error
base domain_field_error = some domain_error
base indexing_domain_error = some domain_error
base search_domain_error = some domain_error
base analytics_domain_error = some domain_error
base conversation_domain_error = some domain_error
base invalid_task_transition = some indexing_domain_error
base duplicate_external_id = some indexing_domain_error
base ungrounded_answer = some conversation_domain_error
base application_error = some app_error
base conversation_not_found = some application_error
base pagination_error = some application_error
base duplicate_inbox_message = some application_error
base invalid_source_file = some application_error
base unsupported_source_format = some invalid_source_file
base missing_source_columns = some invalid_source_file
base indexing_task_not_found = some application_error
base infrastructure_error = some app_error
base unregistered_task = some infrastructure_error
base outbox_publish_error = some infrastructure_error
base repo_error = some infrastructure_error
base answer_generation_error = some infrastructure_error
base search_index_error = some infrastructure_error
base handler_not_found = some infrastructure_error
base source_file_storage_error = some infrastructure_error
base _ = some domain_field_error

-- The classes that `except` looks through, the class itself first: `type(e).__mro__` within the
-- hierarchy, which is four classes high.
mro_up : ℕ → Option Error → List Error
mro_up zero o = []
mro_up (suc n) none = []
mro_up (suc n) (some e) = e ∷ mro_up n (base e)

unfoldable pub mro : Error → List Error
unfolding mro_up base
mro e = mro_up 5 (some e)

abbrev is_app : Error → Bool
is_app app_error = true
is_app _ = false

abbrev is_field : Error → Bool
is_field domain_field_error = true
is_field _ = false

any : (Error → Bool) → List Error → Bool
any p [] = false
any p (e ∷ es) = p e || any p es

-- `except AppError` catches it.
unfoldable pub caught : Error → Bool
unfolding any mro
caught e = any is_app (mro e)

-- It is a DomainFieldError.
unfoldable pub is_field_error : Error → Bool
unfolding any mro
is_field_error e = any is_field (mro e)

-- `except AppError` lets through what is outside the hierarchy, and nothing else.
pub caught-or-foreign : (e : Error) → (caught e ≡ true) ⊎ (e ≡ foreign)
unfolding caught
caught-or-foreign foreign = inr refl
caught-or-foreign _ = inl refl

pub not-caught-foreign : caught foreign ≡ false
unfolding caught
not-caught-foreign = refl
