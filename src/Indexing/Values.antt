-- ===== src/Indexing/Values.antt =====
-- domain/indexing/value_objects: the values that validate themselves when they are made. `make` is
-- the constructor call, `__post_init__` and `_validate` included.
use answer_service.Base.{
  ℕ, ◌≡◌, Bool, true, false, Option, none, some, ltb, length, if◌then◌else◌, Eq, ◌↔◌, ap,
}
use answer_service.Base.Int.{ℤ, pos, ◌+ℤ◌, ltb_ℤ}
use answer_service.Base.Text.{Text, strip, is_empty, text_beq, text_beq_iff}
use answer_service.Errors.{
  Result, ok, raise_if, ◌>>◌, empty_external_id, empty_question, question_too_long, empty_answer,
  answer_too_long, empty_category, empty_failure_code, empty_source_reference, negative_sync_count,
  invalid_content_hash,
}

-- `not self.value.strip()`
abbrev pub is_blank : Text → Bool
is_blank s = is_empty (strip s)

abbrev pub is_blank_option : Option Text → Bool
is_blank_option none = false
is_blank_option (some s) = is_blank s

pub record ExternalId : Type 0 where
  pub value : Text

unfoldable pub external_id : Text → Result ExternalId
external_id s = do raise_if (is_blank s) empty_external_id; ok (record { value = s })

pub record Question : Type 0 where
  pub content : Text

abbrev pub max_question_length : ℕ
max_question_length = 4096

unfoldable pub question : Text → Result Question
question s = do
  raise_if (is_blank s) empty_question
  raise_if (ltb max_question_length (length s)) question_too_long
  ok (record { content = s })

pub record Answer : Type 0 where
  pub content : Text

abbrev pub max_answer_length : ℕ
max_answer_length = 16384

unfoldable pub answer : Text → Result Answer
answer s = do
  raise_if (is_blank s) empty_answer
  raise_if (ltb max_answer_length (length s)) answer_too_long
  ok (record { content = s })

pub record Category : Type 0 where
  pub value : Text

unfoldable pub category : Text → Result Category
category s = do raise_if (is_blank s) empty_category; ok (record { value = s })

pub record SourceReference : Type 0 where
  pub value : Text

unfoldable pub source_reference : Text → Result SourceReference
source_reference s = do raise_if (is_blank s) empty_source_reference; ok (record { value = s })

pub record FailureInfo : Type 0 where
  pub code : Text
  pub message : Text

unfoldable pub failure_info : Text → Text → Result FailureInfo
failure_info c m = do
  raise_if (is_blank c) empty_failure_code
  ok (record { code = c; message = m })

pub record ContentHash : Type 0 where
  pub value : Text

abbrev pub sha256_hex_length : ℕ
sha256_hex_length = 64

unfoldable pub content_hash : Text → Result ContentHash
content_hash s = do
  raise_if (if ltb (length s) sha256_hex_length then true else ltb sha256_hex_length (length s))
      invalid_content_hash
  ok (record { value = s })

pub record SyncStats : Type 0 where
  pub created : ℤ
  pub updated : ℤ
  pub deleted : ℤ
  pub skipped : ℤ

-- The loop of `_validate` stops at the first negative counter; each raises the same error.
unfoldable pub sync_stats : ℤ → ℤ → ℤ → ℤ → Result SyncStats
sync_stats c u d s = do
  raise_if (ltb_ℤ c (pos 0)) negative_sync_count
  raise_if (ltb_ℤ u (pos 0)) negative_sync_count
  raise_if (ltb_ℤ d (pos 0)) negative_sync_count
  raise_if (ltb_ℤ s (pos 0)) negative_sync_count
  ok (record { created = c; updated = u; deleted = d; skipped = s })

abbrev pub empty_stats : SyncStats
empty_stats = record { created = pos 0; updated = pos 0; deleted = pos 0; skipped = pos 0 }

-- `SyncStats.total`
unfoldable pub total : SyncStats → ℤ
total s = s.created +ℤ s.updated +ℤ s.deleted +ℤ s.skipped

-- Value objects are compared by their fields.
pub external_id_beq_iff : (a b : ExternalId) → (text_beq a.value b.value ≡ true) ↔ (a ≡ b)
external_id_beq_iff a b = (
  λ h. ap (λ s. record { value = s }) ((text_beq_iff a.value b.value).0 h),
  λ p. (text_beq_iff a.value b.value).1 (ap (λ (x : ExternalId). x.value) p),
)

instance abbrev pub external_id_eq : Eq ExternalId
external_id_eq = record { beq = λ a b. text_beq a.value b.value; beq_iff = external_id_beq_iff }

pub content_hash_beq_iff : (a b : ContentHash) → (text_beq a.value b.value ≡ true) ↔ (a ≡ b)
content_hash_beq_iff a b = (
  λ h. ap (λ s. record { value = s }) ((text_beq_iff a.value b.value).0 h),
  λ p. (text_beq_iff a.value b.value).1 (ap (λ (x : ContentHash). x.value) p),
)

instance abbrev pub content_hash_eq : Eq ContentHash
content_hash_eq = record { beq = λ a b. text_beq a.value b.value; beq_iff = content_hash_beq_iff }
