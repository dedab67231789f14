-- ===== src/Projection/Laws.antt =====
-- The catalog and the index as two views of the store, and what the calls of their ports do to them.
use answer_service.Base.{◌≡◌, Bool, Option, none, some, [], ◌∷◌, ◌==◌, if◌then◌else◌}
use answer_service.Base.Text.{Text, text_eq}
use answer_service.Base.Dict.{Dict}
use answer_service.Errors.{ok}
use answer_service.Application.Ports.{TransactionManager, CatalogGateway}
use answer_service.Indexing.Values.{ExternalId, external_id_eq}
use answer_service.Indexing.Event.{
  EventBody, qa_pair_added, qa_pair_content_updated, qa_pair_removed,
}
use answer_service.Indexing.Pair.{QaPair}
use answer_service.Projection.Writer.{VectorStore, to_document, to_metadata, embeddable_text}

-- A point of the vector store: the text that was embedded and the payload.
abbrev pub Point : Type 0
Point = Text × Dict Text Text

-- What the index should hold of a pair.
unfoldable pub point_of : QaPair → Point
point_of pair = (embeddable_text (to_document pair), to_metadata (to_document pair))

-- What the catalog and the vector store hold, seen through two views, and what each call does to
-- them when it returns.
pub record IndexLaws {S : Type 0} (manager : TransactionManager S) (catalog : CatalogGateway S)
    (vectors : VectorStore S) (live : S → ExternalId → Option QaPair)
    (point : S → Text → Option Point) : Type 0 where
  pub reads_pair :
      (i : ExternalId) (s t : S) (o : Option QaPair)
      → catalog.read_by_id i s ≡ (ok o, t)
      → (o ≡ live s i) × (live t ≡ live s) × (point t ≡ point s)
  pub pair_id : (i : ExternalId) (s : S) (p : QaPair) → live s i ≡ some p → p.id ≡ i
  pub adds_point :
      (content : Text) (metadata : Dict Text Text) (k : Text) (s t : S)
      → vectors.aadd_texts (content ∷ []) (metadata ∷ []) (k ∷ []) s ≡ (ok tt, t)
      → (live t ≡ live s)
        × ((j : Text) → point t j ≡ (if k == j then some (content, metadata) else point s j))
  pub deletes_point :
      (k : Text) (s t : S)
      → vectors.adelete (k ∷ []) s ≡ (ok tt, t)
      → (live t ≡ live s) × ((j : Text) → point t j ≡ (if k == j then none else point s j))
  pub commit_keeps :
      (s : S) → (live (manager.commit s).1 ≡ live s) × (point (manager.commit s).1 ≡ point s)
  pub uuid5-injective : (a b : Text) → vectors.uuid5 a ≡ vectors.uuid5 b → a ≡ b

-- An upsert writes the pair that the catalog has, and leaves the entry alone where it has none.
abbrev pub refreshed : Option QaPair → Bool → Option Point → Option Point
refreshed none hit o = o
refreshed (some p) hit o = if hit then some (point_of p) else o

-- What one message makes of the index's entry for an id, beside the catalog's pair of that id.
abbrev pub entry_after : Option QaPair → ExternalId → EventBody → Option Point → Option Point
entry_after pair i (qa_pair_added j) o = refreshed pair (j == i) o
entry_after pair i (qa_pair_content_updated j) o = refreshed pair (j == i) o
entry_after pair i (qa_pair_removed j) o = if j == i then none else o
entry_after pair i _ o = o
