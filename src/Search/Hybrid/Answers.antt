-- ===== src/Search/Hybrid/Answers.antt =====
-- Where the parts of an answer come from: the retrieval and the generator.
use answer_service.Base.{ℕ, ◌≡◌, refl, sym, ◌∙◌, ap, subst, Option, none, some, List, [], ◌∷◌, map}
use answer_service.Base.Text.{Text}
use answer_service.Errors.{Result, ok}
use answer_service.Application.Io.{Io, lift, >>=-eq-ok}
use answer_service.Indexing.Values.{ExternalId}
use answer_service.Search.Values.{
  Float, SearchCriteria, AnswerText, GroundedAnswer, grounded_answer,
}
use answer_service.Search.Hybrid.{
  QaPairView, SearchPorts, SearchHit, AskQuestionResponse, search, source_ids, answer_from,
  ask_question,
}

ok_eq : {A : Type 0} {x y : A} → ok x ≡ ok y → x ≡ y
ok_eq h = cc h

-- The text of an answer satisfies `P`, where there is an answer.
abbrev pub Written : (AnswerText → Type 0) → Option GroundedAnswer → Type 0
Written P none = Unit
Written P (some a) = P a.answer

module _ {S : Type 0} (float : Float) (ports : SearchPorts S float) (k : ℕ)
    (order : List ExternalId → List ExternalId)
    (generate : Text → List QaPairView → Io S AnswerText) (P : AnswerText → Type 0)
    (writes : (q : Text) (vs : List QaPairView) (s t : S) (a : AnswerText)
      → generate q vs s ≡ (ok a, t)
      → P a) where
  grounded_answer-answer :
      (a : AnswerText) (is : List ExternalId) (g : GroundedAnswer)
      → grounded_answer a is ≡ ok g
      → g.answer ≡ a
  unfolding grounded_answer
  grounded_answer-answer a [] g h = let no : ⊥ = cc h in elim no [ ]
  grounded_answer-answer a (i ∷ is) g h = sym (ap (λ (x : GroundedAnswer). x.answer) (ok_eq h))

  answer_from-Written :
      (c : SearchCriteria) (g : List (SearchHit float)) (s t : S) (r : AskQuestionResponse float)
      → answer_from float ports k order generate c g s ≡ (ok r, t)
      → (r.grounding ≡ g) × Written P r.answer
  unfolding answer_from
  answer_from-Written c [] s t r h =
      let e : record { answer = none; grounding = [] } ≡ r =
        ok_eq (ap (λ (q : Result (AskQuestionResponse float) × S). q.0) h) in
      subst (λ (q : AskQuestionResponse float). (q.grounding ≡ []) × Written P q.answer) e
        (refl, tt)
  answer_from-Written c (x ∷ xs) s t r h =
      let (a, s₁, wrote, h₁) =
        >>=-eq-ok (generate c.query.content (map (λ y. y.pair) (x ∷ xs))) _ s h in
      let (is, s₂, found, h₂) =
        >>=-eq-ok (lift (source_ids float ports k order (x ∷ xs))) _ s₁ h₁ in
      let (ga, s₃, cited, h₃) = >>=-eq-ok (lift (grounded_answer a is)) _ s₂ h₂ in
      let e : record { answer = some ga; grounding = x ∷ xs } ≡ r =
        ok_eq (ap (λ (q : Result (AskQuestionResponse float) × S). q.0) h₃) in
      let same =
        grounded_answer-answer a is ga (ap (λ (q : Result GroundedAnswer × S). q.0) cited) in
      subst (λ (q : AskQuestionResponse float). (q.grounding ≡ x ∷ xs) × Written P q.answer) e
        (refl, subst P (sym same) (writes _ _ s s₁ a wrote))

  -- A response that is returned shows what one retrieval by its criteria found, and its text, if it
  -- has one, is one that the generator wrote.
  pub ask_question-Written :
      (c : SearchCriteria) (s t : S) (r : AskQuestionResponse float)
      → ask_question float ports k order generate c s ≡ (ok r, t)
      → (s' : S) × (search float ports k order c s ≡ (ok r.grounding, s')) × Written P r.answer
  unfolding ask_question
  ask_question-Written c s t r h =
      let (g, s₁, found, answered) = >>=-eq-ok (search float ports k order c) _ s h in
      let (same, written) = answer_from-Written c g s₁ t r answered in
      (s₁, found ∙ ap (λ (l : List (SearchHit float)). (ok l, s₁)) (sym same), written)
