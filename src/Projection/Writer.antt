-- ===== src/Projection/Writer.antt =====
-- infrastructure/adapters/search/qdrant_search_index_writer.py and the two mappers on its way. The
-- vector store (langchain-qdrant), which also embeds the texts, and `uuid5` are parameters.
use answer_service.Base.{◌≡◌, List, [], ◌∷◌, ◌++◌, map}
use answer_service.Base.Text.{Text, text}
use answer_service.Base.Dict.{Dict}
use answer_service.Errors.{Result, ok, err, search_index_error}
use answer_service.Application.Io.{Io, pure}
use answer_service.Indexing.Values.{ExternalId}
use answer_service.Indexing.Pair.{QaPair}

-- ports/search/search_index_writer.py
pub record IndexDocument : Type 0 where
  pub external_id : ExternalId
  pub question : Text
  pub answer : Text
  pub category : Text

-- `AdaptixQAPairDocumentMapper.to_document`
unfoldable pub to_document : QaPair → IndexDocument
to_document pair = record {
  external_id = pair.id;
  question = pair.content.question.content;
  answer = pair.content.answer.content;
  category = pair.content.category.value;
}

-- `AdaptixIndexMetadataMapper.to_metadata`: the fields under their names.
unfoldable pub to_metadata : IndexDocument → Dict Text Text
to_metadata document =
    (text "external_id", document.external_id.value)
    ∷ (text "question", document.question)
    ∷ (text "answer", document.answer)
    ∷ (text "category", document.category)
    ∷ []

-- `_embeddable_text`: two line feeds between question and answer.
unfoldable pub embeddable_text : IndexDocument → Text
embeddable_text document = document.question ++ 10 ∷ 10 ∷ document.answer

-- QdrantVectorStore; `uuid5` is `str(uuid5(NAMESPACE_URL, name))`.
pub record VectorStore (S : Type 0) : Type 0 where
  pub uuid5 : (name : Text) → Text
  pub aadd_texts :
      (texts : List Text) (metadatas : List (Dict Text Text)) (ids : List Text) → Io S (Unit {0})
  pub adelete : (ids : List Text) → Io S (Unit {0})

module _ {S : Type 0} (vectors : VectorStore S) where
  unfoldable pub point_id_of : ExternalId → Text
  point_id_of external_id = vectors.uuid5 external_id.value

  -- `try: … except Exception as e: raise SearchIndexError`
  pub wrapped : Result (Unit {0}) × S → Result (Unit {0}) × S
  wrapped (ok u, s) = (ok u, s)
  wrapped (err e, s) = (err search_index_error, s)

  unfoldable pub upsert : List IndexDocument → Io S (Unit {0})
  unfolding wrapped to_metadata embeddable_text point_id_of
  upsert [] = pure tt
  upsert (d ∷ ds) = λ s. wrapped (
      vectors.aadd_texts (map embeddable_text (d ∷ ds)) (map to_metadata (d ∷ ds))
        (map (λ document. point_id_of document.external_id) (d ∷ ds)) s)

  unfoldable pub delete : List ExternalId → Io S (Unit {0})
  unfolding wrapped point_id_of
  delete [] = pure tt
  delete (i ∷ is) = λ s. wrapped (vectors.adelete (map point_id_of (i ∷ is)) s)

  -- A call of the writer raises SearchIndexError or nothing.
  pub wrapped-ok : (r : Result (Unit {0}) × S) {t : S} → wrapped r ≡ (ok tt, t) → r ≡ (ok tt, t)
  unfolding wrapped
  wrapped-ok (ok u, s) h = h
  wrapped-ok (err e, s) h = cc h
