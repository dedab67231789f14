-- ===== src/Search/Retrievers/Relevant.antt =====
-- What the lexical retriever returns.
use answer_service.Base.{◌≡◌, Bool, true, false, ◌⊎◌, ◌&&◌, List, All, map}
use mathlib.Core.List.{Mem}
use answer_service.Indexing.Values.{ExternalId}
use answer_service.Indexing.Pair.{QaPair}
use answer_service.Search.Values.{Float, score, ScoredCandidate, SearchCriteria}
use answer_service.Search.Retrievers.{FullText, Floors, in_category, tsquery}

module _ (float : Float) where
  -- The database's order of the ranks.
  pub record RankOrder : Type 0 where
    pub total : (a b : float.F) → (float.le a b ≡ true) ⊎ (float.le b a ≡ true)
    pub trans : (a b c : float.F) → float.le a b ≡ true → float.le b c ≡ true → float.le a c ≡ true

  -- A candidate as a row of the statement.
  abbrev pub row_of : ScoredCandidate float → ExternalId × float.F
  row_of c = (c.external_id, c.score.value)

  module _ {Query : Type 0} (search : FullText float Query) (floors : Floors float)
      (criteria : SearchCriteria) (rows : List QaPair) where
    abbrev rank_of : QaPair → float.F
    rank_of p = search.ts_rank_cd (tsquery float search floors criteria.query.content) p

    abbrev answers : QaPair → Bool
    answers p =
        search.matches (tsquery float search floors criteria.query.content) p
        && in_category float criteria.category p

    -- The row's rank is at least the absolute floor, and at least the share, which the relative floor
    -- is, of the rank of a matching pair that no other matching pair exceeds.
    pub record IsAbove (row : ExternalId × float.F) : Type 0 where
      pub best : QaPair
      pub best_there : Mem best rows
      pub best_matches : answers best ≡ true
      pub none_better :
          All (λ p. (answers p ≡ false) ⊎ (float.le (rank_of p) (rank_of best) ≡ true)) rows
      pub relative :
          float.le (search.times (rank_of best) floors.lexical_relative_floor) row.1 ≡ true
      pub absolute : float.le floors.lexical_absolute_floor row.1 ≡ true

    -- The row stands for a pair of the catalog that matches the query, is in the category that was asked
    -- for, and is above both floors.
    pub record IsRelevant (row : ExternalId × float.F) : Type 0 where
      pub pair : QaPair
      pub there : Mem pair rows
      pub same : (pair.id, rank_of pair) ≡ row
      pub matches : answers pair ≡ true
      pub above : IsAbove row

    -- What a row of the subquery stands for.
    abbrev Stands : ExternalId × float.F → Type 0
    Stands row =
        (pair : QaPair) × (Mem pair rows) × ((pair.id, rank_of pair) ≡ row) × (answers pair ≡ true)

    -- No row of the subquery exceeds this rank.
    abbrev Bounded : float.F → List QaPair → Type 0
    Bounded v ps =
        All (λ (row : ExternalId × float.F). float.le row.1 v ≡ true)
          (map (λ p. (p.id, rank_of p)) ps)
