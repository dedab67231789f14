-- ===== src/Search/Retrievers.antt =====
-- infrastructure/adapters/search/postgres_lexical_retriever.py and qdrant_dense_retriever.py. The
-- full text functions of PostgreSQL, its collation, and the vector store are parameters; the clauses
-- of the SELECT are functions of the rows that it reads.
pub mod Relevant
use answer_service.Base.{
  ℕ, Bool, true, false, ◌&&◌, Option, none, some, List, [], ◌∷◌, ◌++◌, map, filter, take,
  if◌then◌else◌,
}
use answer_service.Base.Int.{pos_part}
use answer_service.Base.Sorting.{sort}
use answer_service.Base.Text.{Text, text, text_beq}
use answer_service.Errors.{Result, ok, err, repo_error, search_index_error, ◌>>=◌}
use answer_service.Application.Io.{Io}
use answer_service.Indexing.Values.{ExternalId, external_id}
use answer_service.Indexing.Pair.{QaPair}
use answer_service.Search.Values.{Float, score, ScoredCandidate, CategoryFilter, SearchCriteria}

-- `array_to_string(lexemes, " | ")`
abbrev pub joined : Text → List Text → Text
joined separator [] = []
joined separator (s ∷ []) = s
joined separator (s ∷ t ∷ rest) = s ++ (separator ++ joined separator (t ∷ rest))

module _ (float : Float) where
  -- What the statement asks of PostgreSQL; `matches` is `search_vector @@ query`, and `text_le` the
  -- order of the database's collation.
  pub record FullText (Query : Type 0) : Type 0 where
    pub lexemes : Text → List Text
    pub to_tsquery : Text → Query
    pub matches : Query → QaPair → Bool
    pub ts_rank_cd : Query → QaPair → float.F
    pub times : float.F → float.F → float.F
    pub text_le : Text → Text → Bool

  -- The floors of SearchConfig.
  pub record Floors : Type 0 where
    pub lexical_relative_floor : float.F
    pub lexical_absolute_floor : float.F
    pub dense_score_floor : float.F

  -- `[ScoredCandidate(external_id=..., score=Score(value=...)) for ...]`
  unfoldable pub candidates_of : List (ExternalId × float.F) → Result (List (ScoredCandidate float))
  unfolding score
  candidates_of [] = ok []
  candidates_of (row ∷ rows) = do
    value ← score float row.1
    rest ← candidates_of rows
    ok (record { external_id = row.0; score = value } ∷ rest)

  -- `func.max`, from the first value on.
  abbrev pub greatest : float.F → List (ExternalId × float.F) → float.F
  greatest best [] = best
  greatest best (row ∷ rows) = greatest (if float.le best row.1 then row.1 else best) rows

  abbrev pub in_category : Option CategoryFilter → QaPair → Bool
  in_category none p = true
  in_category (some c) p = text_beq p.content.category.value c.value

  module _ {Query : Type 0} (search : FullText Query) (floors : Floors) where
    -- `_tsquery`
    unfoldable pub tsquery : Text → Query
    tsquery content = search.to_tsquery (joined (text " | ") (search.lexemes content))

    -- The subquery `matches`.
    unfoldable pub matching : SearchCriteria → List QaPair → List QaPair
    unfolding tsquery
    matching criteria rows =
        filter
          (λ p.
            search.matches (tsquery criteria.query.content) p && in_category criteria.category p)
          rows

    unfoldable pub ranked : SearchCriteria → List QaPair → List (ExternalId × float.F)
    unfolding tsquery matching
    ranked criteria rows =
        map (λ p. (p.id, search.ts_rank_cd (tsquery criteria.query.content) p))
          (matching criteria rows)

    -- The two conditions on the rank; without a match `best` is NULL and no row is left to test.
    abbrev pub above_floors : (best : float.F) → ExternalId × float.F → Bool
    above_floors best row =
        float.le (search.times best floors.lexical_relative_floor) row.1
        && float.le floors.lexical_absolute_floor row.1

    unfoldable pub kept_of : List (ExternalId × float.F) → List (ExternalId × float.F)
    kept_of [] = []
    kept_of (row ∷ rows) = filter (above_floors (greatest row.1 rows)) (row ∷ rows)

    -- ORDER BY rank DESC, external_id
    abbrev pub row_le : ExternalId × float.F → ExternalId × float.F → Bool
    row_le a b =
        if float.le a.1 b.1 && float.le b.1 a.1
        then search.text_le a.0.value b.0.value
        else float.le b.1 a.1

    -- `_statement`
    unfoldable pub statement : SearchCriteria → List QaPair → List (ExternalId × float.F)
    unfolding ranked kept_of
    statement criteria rows =
        take (pos_part criteria.top_k.value) (sort row_le (kept_of (ranked criteria rows)))

    -- `PostgresLexicalRetriever.retrieve`, over the rows of qa_pairs that the statement reads.
    module _ {S : Type 0} (qa_pairs : S → Option (List QaPair) × S) where
      lexical_rows : SearchCriteria → Option (List QaPair) → Result (List (ScoredCandidate float))
      unfolding statement candidates_of
      lexical_rows criteria none = err repo_error
      lexical_rows criteria (some rows) = candidates_of (statement criteria rows)

      unfoldable pub retrieve_lexical : SearchCriteria → Io S (List (ScoredCandidate float))
      unfolding lexical_rows
      retrieve_lexical criteria s = (lexical_rows criteria (qa_pairs s).0, (qa_pairs s).1)

  -- `QdrantDenseRetriever.retrieve`; a hit is the external id of its payload and its score, and the
  -- filter is the category that the payload must have.
  module _ {S : Type 0} (floors : Floors)
      (similar : (query : Text) (k : ℕ) (category : Option Text) (threshold : float.F)
        → S
        → Option (List (Text × float.F)) × S) where
    abbrev pub category_of : Option CategoryFilter → Option Text
    category_of none = none
    category_of (some c) = some c.value

    dense_candidates : List (Text × float.F) → Result (List (ScoredCandidate float))
    unfolding external_id score
    dense_candidates [] = ok []
    dense_candidates (hit ∷ hits) = do
      i ← external_id hit.0
      value ← score float hit.1
      rest ← dense_candidates hits
      ok (record { external_id = i; score = value } ∷ rest)

    dense_hits : Option (List (Text × float.F)) → Result (List (ScoredCandidate float))
    unfolding dense_candidates
    dense_hits none = err search_index_error
    dense_hits (some hits) = dense_candidates hits

    unfoldable pub retrieve_dense : SearchCriteria → Io S (List (ScoredCandidate float))
    unfolding dense_hits
    retrieve_dense criteria s =
        let (hits, t) =
          similar criteria.query.content (pos_part criteria.top_k.value)
            (category_of criteria.category) floors.dense_score_floor s in
        (dense_hits hits, t)
