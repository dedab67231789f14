-- ===== src/Search/Hybrid/Grounding.antt =====
-- What a search returns, and what an answer rests on.
use answer_service.Base.{
  ℕ, ◌<◌, ◌≡◌, refl, sym, ◌∙◌, ap, subst, true, Option, none, some, List, [], ◌∷◌, map, length, All,
  arith,
}
use answer_service.Base.Text.{Text}
use answer_service.Base.Dict.{Dict, get}
use answer_service.Base.Sorting.{Sorted}
use answer_service.Errors.{Result, ok, err}
use answer_service.Errors as E
use answer_service.Application.Io.{Io, lift, >>=-eq-ok}
use answer_service.Indexing.Values.{ExternalId, external_id, external_id_eq}
use answer_service.Search.Values.{
  Float, RankedResult, SearchCriteria, AnswerText, GroundedAnswer, grounded_answer,
}
use answer_service.Search.Fusion.{Fused, fuse}
use answer_service.Search.Fusion.Order.{FloatLaws}
use answer_service.Search.Fusion.Ranking.{ranks_before, unranked, fuse-IsRanking}
use answer_service.Search.Hybrid.{
  QaPairView, SearchPorts, SearchHit, AskQuestionResponse, hit_if, hits_of, search, source_ids,
  answer_from, ask_question,
}

ok_eq : {A : Type 0} {x y : A} → ok x ≡ ok y → x ≡ y
ok_eq h = cc h

cons-eq-ok :
    {A : Type 0} (a : Result A) (b : Result (List A)) {js : List A}
    → E.◌>>=◌ a (λ i. E.◌>>=◌ b (λ is. ok (i ∷ is))) ≡ ok js
    → (i : A) × (is : List A) × (a ≡ ok i) × (b ≡ ok is) × (i ∷ is ≡ js)
cons-eq-ok (ok i) (ok is) h = (i, is, refl, refl, ok_eq h)
cons-eq-ok (ok i) (err e) h = let no : ⊥ = cc h in elim no [ ]
cons-eq-ok (err e) b h = let no : ⊥ = cc h in elim no [ ]

module _ (float : Float) where
  -- An answer names, in order, exactly the pairs it was given, and there is one; no answer goes with
  -- no pair.
  abbrev pub Grounded : Option GroundedAnswer → List (SearchHit float) → Type 0
  Grounded none g = g ≡ []
  Grounded (some a) g =
      (map (λ i. i.value) a.sources ≡ map (λ h. h.pair.external_id) g) × (0 < length g)

  external_id-value : (s : Text) {i : ExternalId} → external_id s ≡ ok i → i.value ≡ s
  unfolding external_id
  external_id-value s h = ground arith

  grounded_answer-sources :
      (a : AnswerText) (is : List ExternalId) {g : GroundedAnswer}
      → grounded_answer a is ≡ ok g
      → g.sources ≡ is
  unfolding grounded_answer
  grounded_answer-sources a [] h = let no : ⊥ = cc h in elim no [ ]
  grounded_answer-sources a (i ∷ is) h = sym (ap (λ (g : GroundedAnswer). g.sources) (ok_eq h))

  module _ {S : Type 0} (ports : SearchPorts S float) (k : ℕ)
      (order : List ExternalId → List ExternalId) where
    source_ids-values :
        (hs : List (SearchHit float)) {is : List ExternalId}
        → source_ids float ports k order hs ≡ ok is
        → map (λ i. i.value) is ≡ map (λ h. h.pair.external_id) hs
    unfolding source_ids external_id
    source_ids-values [] h = ap (map (λ i. i.value)) (sym (ok_eq h))
    source_ids-values (x ∷ xs) h =
        let (i, is, e, es, both) =
          cons-eq-ok (external_id x.pair.external_id) (source_ids float ports k order xs) h in
        ap (map (λ j. j.value)) (sym both)
        ∙ (λ n. external_id-value x.pair.external_id e n ∷ source_ids-values xs es n)

    module _ (generate : Text → List QaPairView → Io S AnswerText) where
      answer_from-Grounded :
          (c : SearchCriteria) (g : List (SearchHit float)) (s t : S)
          (r : AskQuestionResponse float)
          → answer_from float ports k order generate c g s ≡ (ok r, t)
          → Grounded r.answer r.grounding
      unfolding answer_from grounded_answer
      answer_from-Grounded c [] s t r h =
          let e : record { answer = none; grounding = [] } ≡ r =
            ok_eq (ap (λ (q : Result (AskQuestionResponse float) × S). q.0) h) in
          subst (λ (q : AskQuestionResponse float). Grounded q.answer q.grounding) e refl
      answer_from-Grounded c (x ∷ xs) s t r h =
          let (a, s₁, _, h₁) =
            >>=-eq-ok (generate c.query.content (map (λ y. y.pair) (x ∷ xs))) _ s h in
          let (is, s₂, found, h₂) =
            >>=-eq-ok (lift (source_ids float ports k order (x ∷ xs))) _ s₁ h₁ in
          let (ga, s₃, cited, h₃) = >>=-eq-ok (lift (grounded_answer a is)) _ s₂ h₂ in
          let e : record { answer = some ga; grounding = x ∷ xs } ≡ r =
            ok_eq (ap (λ (q : Result (AskQuestionResponse float) × S). q.0) h₃) in
          let named =
            grounded_answer-sources a is (ap (λ (q : Result GroundedAnswer × S). q.0) cited) in
          let ids =
            source_ids-values (x ∷ xs) (ap (λ (q : Result (List ExternalId) × S). q.0) found) in
          subst (λ (q : AskQuestionResponse float). Grounded q.answer q.grounding) e
            (ap (map (λ i. i.value)) named ∙ ids, omega arith)

      -- Whatever the generator writes, a response that is returned is grounded: an answer cites
      -- exactly the retrieved pairs, in their order, and there is at least one; a response without
      -- an answer has retrieved nothing.
      pub ask_question-Grounded :
          (c : SearchCriteria) (s t : S) (r : AskQuestionResponse float)
          → ask_question float ports k order generate c s ≡ (ok r, t)
          → Grounded r.answer r.grounding
      unfolding ask_question
      ask_question-Grounded c s t r h =
          let (g, s₁, _, answered) = >>=-eq-ok (search float ports k order c) _ s h in
          answer_from-Grounded c g s₁ t r answered

    -- Where nothing is retrieved, no generator is called: any two give the same response and leave
    -- the same state.
    pub ask_question-declines :
        (g g' : Text → List QaPairView → Io S AnswerText) (c : SearchCriteria) (s t : S)
        → search float ports k order c s ≡ (ok [], t)
        → ask_question float ports k order g c s ≡ ask_question float ports k order g' c s
    unfolding ask_question answer_from
    ask_question-declines g g' c s t h = rw h

  -- A hit shows the catalog's view of the ranked id.
  abbrev pub Shows : Dict ExternalId QaPairView → SearchHit float → Type 0
  Shows views h = get views h.result.external_id ≡ some h.pair

  hits-All :
      (P : Fused float → Type 0) (views : Dict ExternalId QaPairView)
      (rs : List (RankedResult float))
      → All P (map (unranked float) rs)
      → All P (map (λ h. unranked float h.result) (hits_of float views rs))
  unfolding hits_of
  hits-All P views [] a = tt
  hits-All P views (r ∷ rs) (p, a) = go (get views r.external_id) (hits-All P views rs a)
    where
      go :
          (found : Option QaPairView)
          → All P (map (λ h. unranked float h.result) (hits_of float views rs))
          → All P
              (map (λ h. unranked float h.result) (hit_if float found r (hits_of float views rs)))
      go none b = b
      go (some v) b = (p, b)

  hits-Sorted :
      (views : Dict ExternalId QaPairView) (rs : List (RankedResult float))
      → Sorted (ranks_before float) (map (unranked float) rs)
      → Sorted (ranks_before float) (map (λ h. unranked float h.result) (hits_of float views rs))
        × All (Shows views) (hits_of float views rs)
  unfolding hits_of
  hits-Sorted views [] s = (tt, tt)
  hits-Sorted views (r ∷ rs) (b, s) =
      go (get views r.external_id) refl (hits-Sorted views rs s) (hits-All _ views rs b)
    where
      go :
          (found : Option QaPairView)
          → get views r.external_id ≡ found
          → Sorted
              (ranks_before float)
              (map (λ h. unranked float h.result) (hits_of float views rs))
            × All (Shows views) (hits_of float views rs)
          → All
              (λ y. ranks_before float (unranked float r) y ≡ true)
              (map (λ h. unranked float h.result) (hits_of float views rs))
          → (let hs = hit_if float found r (hits_of float views rs) in
              Sorted (ranks_before float) (map (λ h. unranked float h.result) hs)
              × All (Shows views) hs)
      go none e (s', a) b' = (s', a)
      go (some v) e (s', a) b' = ((b', s'), (e, a))

  -- The hits of a search that returns are sorted as the fused ranking is, also where the catalog has
  -- lost some of the ranked pairs, and each shows what one read of the catalog gave for its id.
  pub search-Sorted :
      {S : Type 0} (laws : FloatLaws float) (ports : SearchPorts S float) (k : ℕ)
      (order : List ExternalId → List ExternalId) (c : SearchCriteria) (s t : S)
      (hits : List (SearchHit float))
      → search float ports k order c s ≡ (ok hits, t)
      → Sorted (ranks_before float) (map (λ h. unranked float h.result) hits)
        × (ranked : List (RankedResult float)) × (views : Dict ExternalId QaPairView) × (s' : S)
        × (ports.read_views (map (λ r. r.external_id) ranked) s' ≡ (ok views, t))
        × All (Shows views) hits
  unfolding search
  search-Sorted {S = S} laws ports k order c s t hits h =
      let (dense, s₁, _, h₁) = >>=-eq-ok (ports.retrieve_dense c) _ s h in
      let (lexical, s₂, _, h₂) = >>=-eq-ok (ports.retrieve_lexical c) _ s₁ h₁ in
      let (ranked, s₃, fused, h₃) =
        >>=-eq-ok (lift (fuse float k order dense lexical c.top_k)) _ s₂ h₂ in
      let (views, s₄, read, h₄) =
        >>=-eq-ok (ports.read_views (map (λ r. r.external_id) ranked)) _ s₃ h₃ in
      let at : s₄ ≡ t = ap (λ (q : Result (List (SearchHit float)) × S). q.1) h₄ in
      let shown : hits_of float views ranked ≡ hits =
        ok_eq (ap (λ (q : Result (List (SearchHit float)) × S). q.0) h₄) in
      let ranking =
        fuse-IsRanking float laws k dense lexical order c.top_k ranked
          (ap (λ (q : Result (List (RankedResult float)) × S). q.0) fused) in
      let (s', a) = hits-Sorted views ranked ranking.sorted in
      (
        subst
            (λ (hs : List (SearchHit float)).
              Sorted (ranks_before float) (map (λ h. unranked float h.result) hs))
            shown s',
        ranked,
        views,
        s₃,
        read ∙ (λ i. (ok views, at i)),
        subst (All (Shows views)) shown a,
      )
