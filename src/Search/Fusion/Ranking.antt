-- ===== src/Search/Fusion/Ranking.antt =====
-- The order of a fused ranking: sorted, numbered from 1, cut at top_k, and the same in every run.
use answer_service.Base.{
  not, ◌&&◌, ◌||◌, ◌+◌, ℕ, suc, Option, none, some, All-imp, ◌≡◌, refl, sym, ◌∙◌, ap, subst, Bool,
  true, false, List, [], ◌∷◌, map, length, take, all, All, if◌then◌else◌, arith, length-take,
  length-map, All-take,
}
use Prim.Native.Nat.{min}
use answer_service.Base.Int.{pos_part}
use answer_service.Base.Text.{text_leb}
use answer_service.Base.Sorting.{
  Reorders, sort, Sorted, length-sort, All-sort, sort-Sorted, sort-Reorders, Sorted-take,
}
use answer_service.Errors.{Result, ok, err, ◌>>=◌, invalid_score}
use answer_service.Indexing.Values.{ExternalId, external_id_eq}
use answer_service.Search.Values.{Float, Score, ScoredCandidate, RankedResult, ranked_result, TopK}
use answer_service.Search.Fusion.{
  Positions, best_positions, add_hit, hit_score, contribution, Fused, key_le, rank_from, union_keys,
  fuse,
}
use answer_service.Base.Dict.{get}
use answer_service.Search.Fusion.First.{First, best_positions-First}
use answer_service.Search.Fusion.Order.{
  FloatLaws, fused_of, finite_at, fuse_all-eq, all-Reorders, map-Reorders, Made, All-Made,
  key_order,
}

suc_eq : (n : ℕ) → suc n ≡ n + 1
suc_eq n = omega arith

ok-injective : {A : Type 0} {x y : A} → ok x ≡ ok y → x ≡ y
ok-injective h = cc h

module _ (float : Float) where
  -- The documented order: by final score downwards, and among equal scores by id upwards.
  abbrev pub ranks_before : Fused float → Fused float → Bool
  ranks_before x y =
      float.le y.scores.final.value x.scores.final.value
      && (not (float.le x.scores.final.value y.scores.final.value)
          || text_leb x.external_id.value y.external_id.value)

  key_le-eq : (x y : Fused float) → key_le float x y ≡ ranks_before x y
  unfolding key_le
  key_le-eq x y = ground arith

  Sorted-ranks_before :
      (xs : List (Fused float)) → Sorted (key_le float) xs → Sorted ranks_before xs
  Sorted-ranks_before xs s =
      subst (λ (le : Fused float → Fused float → Bool). Sorted le xs) (λ i x y. key_le-eq x y i) s

  abbrev pub numbered : ℕ → List (Fused float) → List (RankedResult float)
  numbered n [] = []
  numbered n (x ∷ xs) =
      record { external_id = x.external_id; rank = n; scores = x.scores } ∷ numbered (suc n) xs

  rank_from-eq :
      (n : ℕ) (xs : List (Fused float)) → rank_from float (suc n) xs ≡ ok (numbered (suc n) xs)
  unfolding rank_from ranked_result
  rank_from-eq n [] = refl
  rank_from-eq n (x ∷ xs) = ground (arith, rank_from-eq (suc n) xs)

  -- A result without its rank.
  abbrev pub unranked : RankedResult float → Fused float
  unranked r = record { external_id = r.external_id; scores = r.scores }

  unranked-numbered : (n : ℕ) (xs : List (Fused float)) → map unranked (numbered n xs) ≡ xs
  unranked-numbered n [] = refl
  unranked-numbered n (x ∷ xs) = ap (λ l. x ∷ l) (unranked-numbered (suc n) xs)

  abbrev pub Numbered : ℕ → List (RankedResult float) → Type 0
  Numbered n [] = Unit
  Numbered n (r ∷ rs) = (r.rank ≡ n) × Numbered (suc n) rs

  Numbered-numbered : (n : ℕ) (xs : List (Fused float)) → Numbered n (numbered n xs)
  Numbered-numbered n [] = tt
  Numbered-numbered n (x ∷ xs) = (refl, Numbered-numbered (suc n) xs)

  module _ (laws : FloatLaws float) (k : ℕ)
      (candidates_d candidates_l : List (ScoredCandidate float)) where
    abbrev pub ds : Positions float
    ds = best_positions float candidates_d

    abbrev pub ls : Positions float
    ls = best_positions float candidates_l

    -- The ranking of the ids that a run walks in the order `is`.
    abbrev pub ranking : TopK → List ExternalId → List (Fused float)
    ranking t is = take (pos_part t.value) (sort (key_le float) (map (fused_of float k ds ls) is))

    outcome : TopK → List ExternalId → Bool → Result (List (RankedResult float))
    outcome t is true = ok (numbered 1 (ranking t is))
    outcome t is false = err invalid_score

    rest-eq :
        (t : TopK) (is : List ExternalId) (b : Bool)
        → ((if b then ok (map (fused_of float k ds ls) is) else err invalid_score) >>= λ fused.
            rank_from float 1 (take (pos_part t.value) (sort (key_le float) fused)))
          ≡ outcome t is b
    unfolding outcome
    rest-eq t is true = rank_from-eq 0 (ranking t is)
    rest-eq t is false = refl

    fuse-eq :
        (order : List ExternalId → List ExternalId) (t : TopK)
        → (let is = order (union_keys float ds ls) in
            fuse float k order candidates_d candidates_l t
            ≡ outcome t is (all (finite_at float k ds ls) is))
    unfolding fuse
    fuse-eq order t =
        let is = order (union_keys float ds ls) in
        ap
          (λ (r : Result (List (Fused float))).
            r >>= λ fused. rank_from float 1 (take (pos_part t.value) (sort (key_le float) fused)))
          (fuse_all-eq float k ds ls is)
        ∙ rest-eq t is (all (finite_at float k ds ls) is)

    outcome-Reorders :
        (t : TopK) {is js : List ExternalId} (b : Bool)
        → Reorders is js
        → all (finite_at float k ds ls) is ≡ b
        → outcome t is b ≡ outcome t js b
    unfolding outcome
    outcome-Reorders t {is} {js} true r h =
        ap (λ (xs : List (Fused float)). ok (numbered 1 (take (pos_part t.value) xs)))
          (sort-Reorders (key_le float) (Made float k ds ls) (key_order float laws k ds ls)
            (map-Reorders float k ds ls r) (All-Made float k ds ls is h))
    outcome-Reorders t false r h = refl

    -- The order in which a run happens to walk the set of ids makes no difference to its outcome:
    -- two runs on the same candidates return the same ranking, or both raise InvalidScoreError.
    pub fuse-deterministic :
        (order order' : List ExternalId → List ExternalId) (t : TopK)
        → Reorders (order (union_keys float ds ls)) (order' (union_keys float ds ls))
        → fuse float k order candidates_d candidates_l t
          ≡ fuse float k order' candidates_d candidates_l t
    fuse-deterministic order order' t r =
        let is = order (union_keys float ds ls) in
        let js = order' (union_keys float ds ls) in
        fuse-eq order t
        ∙ outcome-Reorders t (all (finite_at float k ds ls) is) r refl
        ∙ ap (outcome t js) (all-Reorders float k ds ls r)
        ∙ sym (fuse-eq order' t)

    -- What a result is scored: for each retriever that names its id, one over k and the rank of the
    -- first time that it does, weighted, the dense one first.
    abbrev pub shares : (dense_at lexical_at : Option (ℕ × Score float)) → float.F
    shares none none = float.zero
    shares (some (d, x)) none = float.add float.zero (float.dense_over (k + (d + 1)))
    shares none (some (l, y)) = float.add float.zero (float.lexical_over (k + (l + 1)))
    shares (some (d, x)) (some (l, y)) =
        float.add (float.add float.zero (float.dense_over (k + (d + 1))))
          (float.lexical_over (k + (l + 1)))

    abbrev pub score_at : Option (ℕ × Score float) → Option (Score float)
    score_at none = none
    score_at (some (n, x)) = some x

    -- The scores of a result are those of the first places at which the two retrievers name its id.
    pub record Scored (x : Fused float) : Type 0 where
      pub dense_at : Option (ℕ × Score float)
      pub lexical_at : Option (ℕ × Score float)
      pub first_dense : First float x.external_id 0 candidates_d dense_at
      pub first_lexical : First float x.external_id 0 candidates_l lexical_at
      pub final : x.scores.final.value ≡ shares dense_at lexical_at
      pub dense : x.scores.dense ≡ score_at dense_at
      pub lexical : x.scores.lexical ≡ score_at lexical_at

    shares-eq :
        (d l : Option (ℕ × Score float))
        → add_hit float
            (λ n. float.lexical_over (k + n))
            l
            (add_hit float (λ n. float.dense_over (k + n)) d float.zero)
          ≡ shares d l
    shares-eq none none = refl
    shares-eq (some (d, x)) none =
        ap (λ n. float.add float.zero (float.dense_over (k + n))) (suc_eq d)
    shares-eq none (some (l, y)) =
        ap (λ n. float.add float.zero (float.lexical_over (k + n))) (suc_eq l)
    shares-eq (some (d, x)) (some (l, y)) = λ i.
        float.add (float.add float.zero (float.dense_over (k + suc_eq d i)))
          (float.lexical_over (k + suc_eq l i))

    hit_score-eq : (o : Option (ℕ × Score float)) → hit_score float o ≡ score_at o
    hit_score-eq none = refl
    hit_score-eq (some p) = refl

    fused_of-Scored : (i : ExternalId) → Scored (fused_of float k ds ls i)
    unfolding contribution
    fused_of-Scored i = record {
      dense_at = get ds i;
      lexical_at = get ls i;
      first_dense = best_positions-First float candidates_d i;
      first_lexical = best_positions-First float candidates_l i;
      final = shares-eq (get ds i) (get ls i);
      dense = hit_score-eq (get ds i);
      lexical = hit_score-eq (get ls i);
    }

    Made-Scored : (x : Fused float) → Made float k ds ls x → Scored x
    Made-Scored x (_, e) = subst Scored e (fused_of-Scored x.external_id)

    -- What the service promises of a ranking of the ids `is`.
    pub record IsRanking (t : TopK) (is : List ExternalId) (rs : List (RankedResult float))
        : Type 0 where
      pub numbered_from_1 : Numbered 1 rs
      pub sorted : Sorted ranks_before (map unranked rs)
      pub scored : All Scored (map unranked rs)
      pub cut : length rs ≡ min (pos_part t.value) (length is)

    length-numbered : (n : ℕ) (xs : List (Fused float)) → length (numbered n xs) ≡ length xs
    length-numbered n [] = refl
    length-numbered n (x ∷ xs) = ap suc (length-numbered (suc n) xs)

    ranking-IsRanking :
        (t : TopK) (is : List ExternalId)
        → all (finite_at float k ds ls) is ≡ true
        → IsRanking t is (numbered 1 (ranking t is))
    ranking-IsRanking t is h =
        let made = All-Made float k ds ls is h in
        let order = key_order float laws k ds ls in
        let xs = map (fused_of float k ds ls) is in
        let back = sym (unranked-numbered 1 (ranking t is)) in
        record {
          numbered_from_1 = Numbered-numbered 1 (ranking t is);
          sorted = subst (Sorted ranks_before) back (
              Sorted-ranks_before (ranking t is) (
                Sorted-take (key_le float) (pos_part t.value) (sort (key_le float) xs)
                  (sort-Sorted (key_le float) (Made float k ds ls) order xs made)));
          scored = subst (All Scored) back (
              All-imp Scored Made-Scored (ranking t is) (
                All-take (Made float k ds ls) (pos_part t.value) (sort (key_le float) xs)
                  (All-sort (key_le float) (Made float k ds ls) xs made)));
          cut =
              length-numbered 1 (ranking t is)
              ∙ length-take (pos_part t.value) (sort (key_le float) xs)
              ∙ ap (min (pos_part t.value))
                  (length-sort (key_le float) xs ∙ length-map (fused_of float k ds ls) is);
        }

    outcome-IsRanking :
        (t : TopK) (is : List ExternalId) (b : Bool) (rs : List (RankedResult float))
        → all (finite_at float k ds ls) is ≡ b
        → outcome t is b ≡ ok rs
        → IsRanking t is rs
    unfolding outcome
    outcome-IsRanking t is true rs e h =
        subst (IsRanking t is) (ok-injective h) (ranking-IsRanking t is e)
    outcome-IsRanking t is false rs e h = let no : ⊥ = cc h in elim no [ ]

    pub fuse-IsRanking :
        (order : List ExternalId → List ExternalId) (t : TopK) (rs : List (RankedResult float))
        → fuse float k order candidates_d candidates_l t ≡ ok rs
        → IsRanking t (order (union_keys float ds ls)) rs
    fuse-IsRanking order t rs h =
        outcome-IsRanking t (order (union_keys float ds ls)) _ rs refl (sym (fuse-eq order t) ∙ h)
