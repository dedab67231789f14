-- ===== src/Search/Generator.antt =====
-- infrastructure/adapters/langchain: LangChainAnswerGenerator and LangChainEmbedder. The model is a
-- parameter; `none` is whatever exception it raises.
use answer_service.Base.{
  ◌≡◌, refl, Bool, true, false, Option, none, some, List, [], ◌∷◌, ◌++◌, map, all, ap, arith,
}
use answer_service.Base.Text.{Text, text, strip}
use answer_service.Errors.{Result, ok, err, answer_generation_error, conversation_empty_answer}
use answer_service.Errors.Status.{service, handle}
use answer_service.Application.Io.{Io, pure}
use answer_service.Indexing.Values.{is_blank}
use answer_service.Search.Values.{AnswerText, answer_text}
use answer_service.Search.Hybrid.{QaPairView}

-- A part of a list that a chat model answers in: text, or a block with fields of its own.
pub data Part : Type 0 where
  text_part : Text → Part
  block : Part

-- `response.content`: a str, a list, or another object, of which `str` is the text.
pub data Content : Type 0 where
  plain : Text → Content
  parts : List Part → Content
  other : Text → Content

-- `"".join(part for part in content if isinstance(part, str))`
abbrev pub joined : List Part → Text
joined [] = []
joined (text_part s ∷ ps) = s ++ joined ps
joined (block ∷ ps) = joined ps

-- `_text_of`
unfoldable pub text_of : Content → Text
text_of (plain s) = s
text_of (parts ps) = joined ps
text_of (other s) = s

-- `sep.join(...)`
abbrev pub join : Text → List Text → Text
join sep [] = []
join sep (s ∷ []) = s
join sep (s ∷ t ∷ ts) = s ++ (sep ++ join sep (t ∷ ts))

abbrev newline : Text
newline = 10 ∷ []

pair_lines : QaPairView → Text
pair_lines pair = text "Q: " ++ (pair.question ++ (newline ++ (text "A: " ++ pair.answer)))

-- `_prompt`
unfoldable pub prompt : (question : Text) → List QaPairView → Text
unfolding pair_lines
prompt question grounding =
    join (newline ++ newline) (map pair_lines grounding)
    ++ (newline ++ (newline ++ (text "User question: " ++ question)))

abbrev pub system_prompt : Text
system_prompt =
    text
      "You answer questions about a product using only the question-answer pairs provided below. Write one short, direct answer in the user's own language. Use only what the pairs state: if they do not cover the question, say so plainly instead of guessing, and never invent policies, prices or steps. Do not mention the pairs, their numbering, or that you were given context."

abbrev pub is_block : Part → Bool
is_block (text_part s) = false
is_block block = true

joined-nil : (ps : List Part) → all is_block ps ≡ true → joined ps ≡ []
joined-nil [] h = refl
joined-nil (text_part s ∷ ps) h = let no : ⊥ = ground arith in elim no [ ]
joined-nil (block ∷ ps) h = joined-nil ps h

answer_text-NonBlank :
    (s : Text) (a : AnswerText) → answer_text s ≡ ok a → is_blank a.content ≡ false
unfolding answer_text
answer_text-NonBlank s a h = ground arith

module _ {S : Type 0} (chat_model : (system human : Text) → S → Option Content × S) where
  content_of : Option Content → Result AnswerText
  unfolding text_of answer_text
  content_of none = err answer_generation_error
  content_of (some content) = answer_text (text_of content)

  -- `LangChainAnswerGenerator.generate`
  unfoldable pub generate : (question : Text) → List QaPairView → Io S AnswerText
  unfolding content_of prompt
  generate question grounding s =
      let (response, t) = chat_model system_prompt (prompt question grounding) s in
      (content_of response, t)

  -- A text that the model wrote and that is returned is not blank.
  pub generate-NonBlank :
      (question : Text) (grounding : List QaPairView) (s t : S) (a : AnswerText)
      → generate question grounding s ≡ (ok a, t)
      → is_blank a.content ≡ false
  unfolding generate
  generate-NonBlank question grounding s t a h =
      go (chat_model system_prompt (prompt question grounding) s).0
        (ap (λ (q : Result AnswerText × S). q.0) h)
    where
      go : (response : Option Content) → content_of response ≡ ok a → is_blank a.content ≡ false
      go none k = let no : ⊥ = cc k in elim no [ ]
      go (some content) k = answer_text-NonBlank (text_of content) a k

  -- A model that answers in blocks alone is refused as if its answer were empty, whatever text the
  -- blocks hold, and the exception answers 500.
  pub generate-blocks :
      (question : Text) (grounding : List QaPairView) (s t : S) (ps : List Part)
      → chat_model system_prompt (prompt question grounding) s ≡ (some (parts ps), t)
      → all is_block ps ≡ true
      → (generate question grounding s ≡ (err conversation_empty_answer, t))
        × ((handle (service conversation_empty_answer)).status_code ≡ 500)
  unfolding generate handle answer_text strip
  generate-blocks question grounding s t ps h blocks = rw (h, joined-nil ps blocks) (refl, refl)

module _ {S V : Type 0} (aembed_documents : List Text → Io S (List V)) where
  -- `LangChainEmbedder.embed_documents`: nothing is asked of the model for no texts.
  unfoldable pub embed_documents : List Text → Io S (List V)
  embed_documents [] = pure []
  embed_documents (t ∷ ts) = aembed_documents (t ∷ ts)
