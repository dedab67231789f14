-- ===== src/Search/Fusion/First.antt =====
-- Where a retriever first names an id, said without the dictionary of the service.
use answer_service.Base.{
  ℕ, suc, ◌≡◌, ◌≢◌, refl, sym, ◌∙◌, ap, subst, Bool, true, false, Option, none, some, List, [], ◌∷◌,
  inl, inr, Bool-cases, ◌==◌, if◌then◌else◌, arith,
}
use answer_service.Base.Dict.{get, put, has, get-put}
use answer_service.Indexing.Values.{ExternalId, external_id_eq}
use answer_service.Search.Values.{Float, Score, ScoredCandidate}
use answer_service.Search.Fusion.{Positions, index_from, best_positions}

module _ (float : Float) where
  -- The first candidate with this id, its position counted from `n`, and its score; or none has it.
  pub data First (i : ExternalId)
      : ℕ → List (ScoredCandidate float) → Option (ℕ × Score float) → Type 0 where
    absent : (n : ℕ) → First i n [] none
    here :
        (n : ℕ) (c : ScoredCandidate float) (cs : List (ScoredCandidate float))
        → c.external_id ≡ i
        → First i n (c ∷ cs) (some (n, c.score))
    later :
        (n : ℕ) (c : ScoredCandidate float) (cs : List (ScoredCandidate float))
        (found : Option (ℕ × Score float))
        → c.external_id ≢ i
        → First i (suc n) cs found
        → First i n (c ∷ cs) found

  first_from : ExternalId → ℕ → List (ScoredCandidate float) → Option (ℕ × Score float)
  first_from i n [] = none
  first_from i n (c ∷ cs) =
      let rest = first_from i (suc n) cs in if c.external_id == i then some (n, c.score) else rest

  first_from-First :
      (i : ExternalId) (n : ℕ) (cs : List (ScoredCandidate float))
      → First i n cs (first_from i n cs)
  unfolding first_from
  first_from-First i n [] = absent n
  first_from-First i n (c ∷ cs) = elim (Bool-cases (c.external_id == i)) [
    | inl e ↦ rw e (here n c cs ((external_id_eq.beq_iff c.external_id i).0 e))
    | inr e ↦ rw e (
        later n c cs (first_from i (suc n) cs)
          (λ same.
            let no : true ≡ false = sym ((external_id_eq.beq_iff c.external_id i).1 same) ∙ e in
            cc no)
          (first_from-First i (suc n) cs))
  ]

  or_else : Option (ℕ × Score float) → Option (ℕ × Score float) → Option (ℕ × Score float)
  or_else none o = o
  or_else (some p) o = some p

  is_found : Option (ℕ × Score float) → Bool
  is_found none = false
  is_found (some p) = true

  has-get : (m : Positions float) (i : ExternalId) → has m i ≡ is_found (get m i)
  unfolding is_found
  has-get [] i = refl
  has-get ((j, v) ∷ m) i =
      ground (arith, has-get m i, external_id_eq.beq_iff j i, external_id_eq.beq_iff i j)

  -- One round of the loop.
  round :
      (m : Positions float) (j i : ExternalId) (v : ℕ × Score float)
      (rest : Option (ℕ × Score float))
      → or_else (get (if has m j then m else put m j v) i) rest
        ≡ or_else (get m i) (if j == i then some v else rest)
  unfolding or_else is_found
  round m j i v rest = elim (Bool-cases (j == i)) [
    | inr e ↦ elim (Bool-cases (has m j)) [
      | inl h ↦ rw (h, e) refl
      | inr h ↦ rw (h, get-put m j v i, e) refl
    ]
    | inl e ↦
        let same : j ≡ i = (external_id_eq.beq_iff j i).0 e in
        elim (Bool-cases (has m j)) [
          | inl h ↦
              rw (h, e)
                (taken (get m i) (some v) rest
                  (sym (has-get m i) ∙ ap (λ x. has m x) (sym same) ∙ h))
          | inr h ↦
              rw (h, get-put m j v i, e)
                (free (get m i) v rest (sym (has-get m i) ∙ ap (λ x. has m x) (sym same) ∙ h))
        ]
  ]
    where
      taken :
          (o q rest : Option (ℕ × Score float)) → is_found o ≡ true → or_else o rest ≡ or_else o q
      taken none q rest h = cc h
      taken (some p) q rest h = refl

      free :
          (o : Option (ℕ × Score float)) (v : ℕ × Score float) (rest : Option (ℕ × Score float))
          → is_found o ≡ false
          → some v ≡ or_else o (some v)
      free none v rest h = refl
      free (some p) v rest h = cc h

  nothing_later : (o : Option (ℕ × Score float)) → o ≡ or_else o none
  unfolding or_else
  nothing_later none = refl
  nothing_later (some p) = refl

  get-index_from :
      (cs : List (ScoredCandidate float)) (n : ℕ) (m : Positions float) (i : ExternalId)
      → get (index_from float n cs m) i ≡ or_else (get m i) (first_from i n cs)
  unfolding index_from first_from or_else
  get-index_from [] n m i = nothing_later (get m i)
  get-index_from (c ∷ cs) n m i =
      get-index_from cs (suc n)
        (if has m c.external_id then m else put m c.external_id (n, c.score)) i
      ∙ round m c.external_id i (n, c.score) (first_from i (suc n) cs)

  -- `_best_positions` knows of each id exactly where the retriever first names it.
  pub best_positions-First :
      (cs : List (ScoredCandidate float)) (i : ExternalId)
      → First i 0 cs (get (best_positions float cs) i)
  unfolding best_positions or_else
  best_positions-First cs i =
      subst (First i 0 cs) (sym (get-index_from cs 0 [] i)) (first_from-First i 0 cs)
