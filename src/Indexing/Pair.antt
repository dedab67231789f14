-- ===== src/Indexing/Pair.antt =====
-- domain/indexing/entities/qa_pair.py and domain/indexing/value_objects/desired_pair.py.
use answer_service.Base.{ℕ, Bool, true, false, List, [], ◌∷◌, if◌then◌else◌}
use answer_service.Indexing.Values.{ExternalId}
use answer_service.Indexing.Fingerprint.{QaContent, content_beq}
use answer_service.Indexing.Event.{
  EventBody, qa_pair_added, qa_pair_content_updated, qa_pair_removed,
}

pub record QaPair : Type 0 where
  pub id : ExternalId
  pub created_at : ℕ
  pub updated_at : ℕ
  pub content : QaContent
  pub source_updated_at : ℕ

pub record DesiredPair : Type 0 where
  pub external_id : ExternalId
  pub content : QaContent
  pub source_updated_at : ℕ

-- `QAPair.register`, which QAPairFactory.create calls.
unfoldable pub register : (now : ℕ) → ExternalId → QaContent → ℕ → QaPair × List EventBody
register now external_id content source_updated_at = (
  record {
    id = external_id;
    created_at = now;
    updated_at = now;
    content = content;
    source_updated_at = source_updated_at;
  },
  qa_pair_added external_id ∷ [],
)

-- `QAPair.update_content`: the pair, whether something changed, and the events.
unfoldable pub update_content : (now : ℕ) → QaContent → ℕ → QaPair → QaPair × Bool × List EventBody
unfolding content_beq
update_content now content source_updated_at pair =
    if content_beq content pair.content then (pair, false, []) else (
      record pair { content = content; source_updated_at = source_updated_at; updated_at = now },
      true,
      qa_pair_content_updated pair.id ∷ [],
    )

-- `QAPair.mark_removed`
unfoldable pub mark_removed : QaPair → List EventBody
mark_removed pair = qa_pair_removed pair.id ∷ []
