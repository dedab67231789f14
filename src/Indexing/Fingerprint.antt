-- ===== src/Indexing/Fingerprint.antt =====
-- QAContent and `ContentHash.of`: the fingerprint that drives the synchronization. SHA-256 is the
-- standard library's; the model takes the digest function as a parameter.
pub mod Injective
use answer_service.Base.{ℕ, ◌≡◌, Bool, true, ◌&&◌, ◌∷◌, ◌++◌, arith, ◌↔◌, length}
use answer_service.Base.Text.{Text, text_beq, text_beq_iff}
use answer_service.Errors.{Result, ok}
use answer_service.Indexing.Values.{
  Question, Answer, Category, ContentHash, content_hash, sha256_hex_length,
}

pub record QaContent : Type 0 where
  pub question : Question
  pub answer : Answer
  pub category : Category

abbrev pub field_separator : ℕ
field_separator = 31

-- `_FIELD_SEPARATOR.join((question.content, answer.content, category.value))`
unfoldable pub payload : QaContent → Text
payload c =
    c.question.content ++ field_separator ∷ (c.answer.content ++ field_separator ∷ c.category.value)

-- `content == self.content`, field by field.
unfoldable pub content_beq : QaContent → QaContent → Bool
content_beq a b =
    text_beq a.question.content b.question.content
    && text_beq a.answer.content b.answer.content
    && text_beq a.category.value b.category.value

pub content_beq_iff : (a b : QaContent) → (content_beq a b ≡ true) ↔ (a ≡ b)
unfolding content_beq
content_beq_iff a b = (
  λ h. ground (
    arith,
    text_beq_iff a.question.content b.question.content,
    text_beq_iff a.answer.content b.answer.content,
    text_beq_iff a.category.value b.category.value,
  ),
  λ p. ground (
    arith,
    text_beq_iff a.question.content b.question.content,
    text_beq_iff a.answer.content b.answer.content,
    text_beq_iff a.category.value b.category.value,
  ),
)

-- `hashlib.sha256(s.encode("utf-8")).hexdigest()`
abbrev pub Digest : Type 0
Digest = Text → Text

module _ (sha256 : Digest) where
  -- `ContentHash.of`, with the digest's length checked by the value object.
  unfoldable pub content_hash_of : QaContent → Result ContentHash
  unfolding payload
  content_hash_of c = content_hash (sha256 (payload c))

  -- The fingerprint as a value: `ContentHash.of` for a digest of the right length.
  abbrev pub fingerprint : QaContent → ContentHash
  fingerprint c = record { value = sha256 (payload c) }

  -- `hashlib` documents that the hexadecimal SHA-256 digest has 64 characters. Then the length check
  -- of the value object passes, and `fingerprint` is what `ContentHash.of` returns.
  pub content_hash_of-fingerprint :
      ((s : Text) → length (sha256 s) ≡ sha256_hex_length)
      → (c : QaContent) → content_hash_of c ≡ ok (fingerprint c)
  unfolding content_hash_of content_hash
  content_hash_of-fingerprint len c = ground (arith, len (payload c))
