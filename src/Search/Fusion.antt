-- ===== src/Search/Fusion.antt =====
-- domain/search/services/rrf_fusion.py: Reciprocal Rank Fusion.
pub mod Order
pub mod First
pub mod Ranking
use answer_service.Base.{
  ℕ, suc, ◌+◌, ◌≡◌, Bool, true, false, not, ◌&&◌, Option, none, some, List, [], ◌∷◌, ◌++◌, length,
  filter, take, contains, Eq, ◌==◌, if◌then◌else◌,
}
use answer_service.Base.Int.{ℤ, pos_part}
use answer_service.Base.Text.{Text, text_leb}
use answer_service.Base.Dict.{Dict, get, put, has, keys}
use answer_service.Base.Sorting.{sort}
use answer_service.Errors.{Result, ok, err, ◌>>=◌}
use answer_service.Indexing.Values.{ExternalId, external_id_eq}
use answer_service.Search.Values.{
  Float, Score, score, ScoredCandidate, Scores, RankedResult, ranked_result, TopK,
}

module _ (float : Float) where
  abbrev pub Positions : Type 0
  Positions = Dict ExternalId (ℕ × Score float)

  -- The loop of `_best_positions`, from a position on.
  unfoldable pub index_from : ℕ → List (ScoredCandidate float) → Positions → Positions
  index_from n [] m = m
  index_from n (c ∷ cs) m =
      index_from (suc n) cs (if has m c.external_id then m else put m c.external_id (n, c.score))

  -- `_best_positions`
  unfoldable pub best_positions : List (ScoredCandidate float) → Positions
  unfolding index_from
  best_positions candidates = index_from 0 candidates []

  abbrev pub hit_score : Option (ℕ × Score float) → Option (Score float)
  hit_score none = none
  hit_score (some (n, s)) = some s

  abbrev pub add_hit : (ℕ → float.F) → Option (ℕ × Score float) → float.F → float.F
  add_hit over none x = x
  add_hit over (some (n, s)) x = float.add x (over (suc n))

  pub record Fused : Type 0 where
    pub external_id : ExternalId
    pub scores : Scores float

  module _ (k : ℕ) (dense lexical : Positions) where
    -- `contribution`
    unfoldable pub contribution : ExternalId → float.F
    contribution i =
        add_hit (λ n. float.lexical_over (k + n)) (get lexical i)
          (add_hit (λ n. float.dense_over (k + n)) (get dense i) float.zero)

    -- The body of the loop over the ids.
    unfoldable pub fuse_one : ExternalId → Result Fused
    unfolding contribution score
    fuse_one i = do
      final ← score float (contribution i)
      ok (record {
        external_id = i;
        scores = record {
          final = final;
          dense = hit_score (get dense i);
          lexical = hit_score (get lexical i);
        };
      })

    unfoldable pub fuse_all : List ExternalId → Result (List Fused)
    unfolding fuse_one
    fuse_all [] = ok []
    fuse_all (i ∷ is) = do x ← fuse_one i; xs ← fuse_all is; ok (x ∷ xs)

  -- `key=lambda item: (-item[1].final.value, item[0].value)`, compared with `<=`.
  unfoldable pub key_le : Fused → Fused → Bool
  key_le a b =
      let fa = a.scores.final.value in
      let fb = b.scores.final.value in
      if float.le fa fb && float.le fb fa
      then text_leb a.external_id.value b.external_id.value
      else float.le fb fa

  -- `enumerate(..., start=rank)`
  unfoldable pub rank_from : ℕ → List Fused → Result (List (RankedResult float))
  unfolding ranked_result
  rank_from rank [] = ok []
  rank_from rank (x ∷ xs) = do
    r ← ranked_result float x.external_id rank x.scores
    rs ← rank_from (suc rank) xs
    ok (r ∷ rs)

  -- `dense_by_id.keys() | lexical_by_id.keys()`, in some order.
  unfoldable pub union_keys : Positions → Positions → List ExternalId
  union_keys dense lexical = keys dense ++ filter (λ i. not (has dense i)) (keys lexical)

  -- `fuse`. A set has no order of its own: `order` is the one in which this run walks the union.
  unfoldable pub fuse :
      (k : ℕ) (order : List ExternalId → List ExternalId)
      (dense lexical : List (ScoredCandidate float))
      → TopK
      → Result (List (RankedResult float))
  unfolding best_positions fuse_all key_le rank_from union_keys
  fuse k order dense lexical top_k =
      let ds = best_positions dense in
      let ls = best_positions lexical in
      do
        fused ← fuse_all k ds ls (order (union_keys ds ls))
        rank_from 1 (take (pos_part top_k.value) (sort key_le fused))
