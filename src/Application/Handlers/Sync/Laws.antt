-- ===== src/Application/Handlers/Sync/Laws.antt =====
-- What a run relies on of the catalog's session (infrastructure/adapters/persistence/
-- sqlalchemy_qa_catalog_gateway.py over SQLAlchemy with `autoflush=False`).
use answer_service.Base.{
  ◌≡◌, false, Option, none, some, List, [], ◌∷◌, contains, ◌==◌, if◌then◌else◌,
}
use answer_service.Base.Dict.{get}
use answer_service.Errors.{ok}
use answer_service.Application.Ports.{Environment, CatalogGateway}
use answer_service.Indexing.Values.{ExternalId, ContentHash, external_id_eq}
use answer_service.Indexing.Fingerprint.{Digest, fingerprint}
use answer_service.Indexing.Pair.{QaPair}
use answer_service.Indexing.Planner.{Manifest}

module _ (sha256 : Digest) where
  -- The fingerprint of a pair that may be there.
  abbrev pub seal : Option QaPair → Option ContentHash
  seal none = none
  seal (some p) = some (fingerprint sha256 p.content)

-- `lookup s` is the catalog that a flush of the session would leave, `staged s` the ids of the added
-- pairs that it has not flushed: a read is a SELECT, which does not see them.
module _ {S : Type 0} where
  pub record CatalogLaws (env : Environment S) (catalog : CatalogGateway S) (sha256 : Digest)
      (lookup : S → ExternalId → Option QaPair) (staged : S → List ExternalId) : Type 0 where
    pub lookup_id : (s : S) (i : ExternalId) (p : QaPair) → lookup s i ≡ some p → p.id ≡ i
    pub now_keeps :
        (s : S)
        → ((j : ExternalId) → lookup (env.now s).1 j ≡ lookup s j)
          × (staged (env.now s).1 ≡ staged s)
    pub read_ok :
        (s t : S) (i : ExternalId) (found : Option QaPair)
        → catalog.read_by_id i s ≡ (ok found, t)
        → (contains (staged s) i ≡ false → found ≡ lookup s i)
          × ((j : ExternalId) → lookup t j ≡ lookup s j)
          × (staged t ≡ staged s)
    pub delete_ok :
        (s t : S) (i : ExternalId)
        → catalog.delete_by_id i s ≡ (ok tt, t)
        → contains (staged s) i ≡ false
        → ((j : ExternalId) → lookup t j ≡ (if i == j then none else lookup s j))
          × (staged t ≡ staged s)
    pub add_ok :
        (s t : S) (p : QaPair)
        → catalog.add p s ≡ (ok tt, t)
        → ((j : ExternalId) → lookup t j ≡ (if p.id == j then some p else lookup s j))
          × (staged t ≡ p.id ∷ staged s)
    pub update_ok :
        (s t : S) (p : QaPair)
        → catalog.update p s ≡ (ok tt, t)
        → contains (staged s) p.id ≡ false
        → ((j : ExternalId) → lookup t j ≡ (if p.id == j then some p else lookup s j))
          × (staged t ≡ staged s)
    pub fingerprints_ok :
        (s t : S) (m : Manifest)
        → catalog.read_fingerprints s ≡ (ok m, t)
        → staged s ≡ []
        → ((j : ExternalId) → get m j ≡ seal sha256 (lookup s j))
          × ((j : ExternalId) → lookup t j ≡ lookup s j)
          × (staged t ≡ staged s)
