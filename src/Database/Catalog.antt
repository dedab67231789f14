-- ===== src/Database/Catalog.antt =====
-- infrastructure/adapters/persistence/sqlalchemy_qa_catalog_gateway.py. `_inject` only hands the
-- scope's EventsCollection to the loaded pair, which the model passes along by itself.
pub mod Reads
use answer_service.Base.{ℕ, Bool, true, Option, none, some, List, [], ◌∷◌, contains, ◌==◌}
use answer_service.Base.Text.{Text, text_eq}
use answer_service.Base.Dict.{Dict, put}
use answer_service.Errors.{Result, ok, err, ◌>>=◌}
use answer_service.Application.Io.{Io, pure}
use answer_service.Application.Ports.{CatalogGateway}
use answer_service.Indexing.Values.{ExternalId, Category, external_id_eq}
use answer_service.Indexing.Fingerprint.{Digest, content_hash_of}
use answer_service.Indexing.Pair.{QaPair}
use answer_service.Indexing.Planner.{Manifest}
use answer_service.Search.Hybrid.{QaPairView}
use answer_service.Database.Session.{Table, attempt, one_of, or_repo_error}

-- CatalogStatistics (ports/gateways/qa_catalog_query_gateway.py)
pub record CatalogStatistics : Type 0 where
  pub total_pairs : ℕ
  pub pairs_per_category : Dict Text ℕ

-- The value of the comprehension of `read_views`.
abbrev pub view_of : QaPair → QaPairView
view_of row = record {
  external_id = row.id.value;
  question = row.content.question.content;
  answer = row.content.answer.content;
  category = row.content.category.value;
}

-- A dictionary comprehension over rows, from the dictionary made so far.
unfoldable pub views_from : Dict ExternalId QaPairView → List QaPair → Dict ExternalId QaPairView
views_from views [] = views
views_from views (row ∷ rows) = views_from (put views row.id (view_of row)) rows

unfoldable pub counts_from : Dict Text ℕ → List (Category × ℕ) → Dict Text ℕ
counts_from counts [] = counts
counts_from counts (row ∷ rows) = counts_from (put counts row.0.value row.1) rows

unfoldable pub hashes_from : Digest → Manifest → List QaPair → Result Manifest
unfolding content_hash_of
hashes_from sha256 hashes [] = ok hashes
hashes_from sha256 hashes (row ∷ rows) =
    content_hash_of sha256 row.content >>= λ h. hashes_from sha256 (put hashes row.id h) rows

module _ {S : Type 0} (table : Table S QaPair) where
  hashed : Digest → Result (List QaPair) → Result Manifest
  unfolding hashes_from
  hashed sha256 rows = rows >>= λ found. hashes_from sha256 [] found

  -- SqlAlchemyQACatalogGateway as QACatalogCommandGateway, with `read_fingerprints`.
  -- Its `update` does nothing: the session already tracks the pair that the handler has mutated, and
  -- `changed` stands for that mutation, whose value is passed along.
  unfoldable pub sql_catalog_gateway : Digest → CatalogGateway S
  unfolding hashed
  sql_catalog_gateway sha256 = record {
    add = λ pair s. (ok tt, table.add pair s);
    read_by_id = λ i. attempt (λ s. one_of (table.select (λ p. p.id == i) s));
    update = λ pair s. (ok tt, table.changed pair s);
    delete_by_id = λ i. attempt (table.delete_where (λ p. p.id == i));
    read_fingerprints = λ s.
        let (found, t) = table.select_columns (λ p. true) s in
        (hashed sha256 (or_repo_error found), t);
  }

  viewed : Result (List QaPair) → Result (Dict ExternalId QaPairView)
  unfolding views_from
  viewed rows = rows >>= λ found. ok (views_from [] found)

  -- `read_views`
  unfoldable pub read_views : List ExternalId → Io S (Dict ExternalId QaPairView)
  unfolding viewed
  read_views [] = pure []
  read_views (i ∷ is) = λ s.
      let (found, t) = table.select_columns (λ p. contains (i ∷ is) p.id) s in
      (viewed (or_repo_error found), t)

-- `read_statistics`, over its two aggregate statements.
module _ {S : Type 0} (count : S → Option ℕ × S)
    (count_by_category : S → Option (List (Category × ℕ)) × S) where
  statistics_of : ℕ → Result (List (Category × ℕ)) → Result CatalogStatistics
  unfolding counts_from
  statistics_of total rows = rows >>= λ found.
      ok (record { total_pairs = total; pairs_per_category = counts_from [] found })

  unfoldable pub read_statistics : Io S CatalogStatistics
  unfolding statistics_of
  read_statistics s = elim (count s).0 [
    | none ↦ (or_repo_error none, (count s).1)
    | some total ↦
        let (rows, t) = count_by_category (count s).1 in
        (statistics_of total (or_repo_error rows), t)
  ]
