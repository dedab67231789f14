-- ===== src/Persistence/Rows/Pairs.antt =====
-- The catalog's pairs come back from qa_pairs as they were: the pairs that the synchronisation makes
-- of the rows of source files, by registering and by updating.
use answer_service.Base.{ℕ, ◌≡◌, refl, subst, inl, inr, Bool-cases}
use answer_service.Errors.{Result, ok, err}
use answer_service.Errors as E
use answer_service.Application.Ports.{SourceRow}
use answer_service.Application.Handlers.Sync.{to_desired_pair, content_of}
use answer_service.Indexing.Values.{external_id, question, answer, category}
use answer_service.Indexing.Fingerprint.{QaContent, content_beq}
use answer_service.Indexing.Pair.{QaPair, DesiredPair, register, update_content}
use answer_service.Persistence.Made.{
  external_id_again, question_again, answer_again, category_again,
}
use answer_service.Persistence.Rows.{store_pair, load_pair}

-- The pairs that accepted source rows give and change.
pub data IsSynced : QaPair → Type 0 where
  is_registered :
      (now : ℕ) (row : SourceRow) (d : DesiredPair)
      → to_desired_pair row ≡ ok d
      → IsSynced (register now d.external_id d.content d.source_updated_at).0
  is_updated :
      (now : ℕ) (row : SourceRow) (d : DesiredPair) {p : QaPair}
      → to_desired_pair row ≡ ok d
      → IsSynced p
      → IsSynced (update_content now d.content d.source_updated_at p).0

record IsMadeContent (c : QaContent) : Type 0 where
  question : question c.question.content ≡ ok c.question
  answer : answer c.answer.content ≡ ok c.answer
  category : category c.category.value ≡ ok c.category

bind_parts {ℓ κ} :
    {A : Type ℓ} {B : Type κ} (m : Result A) (f : A → Result B) {b : B}
    → E.◌>>=◌ m f ≡ ok b
    → (a : A) × (m ≡ ok a) × (f a ≡ ok b)
bind_parts (ok a) f h = (a, refl, h)
bind_parts (err e) f h = cc h

ok_eq {ℓ} : {A : Type ℓ} {a b : A} → ok a ≡ ok b → a ≡ b
ok_eq h = cc h

content_of-IsMadeContent :
    (row : SourceRow) {c : QaContent} → content_of row ≡ ok c → IsMadeContent c
unfolding content_of
content_of-IsMadeContent row {c} h =
    let q = bind_parts (question row.question) _ h in
    let a = bind_parts (answer row.answer) _ q.2 in
    let k = bind_parts (category row.category) _ a.2 in
    subst IsMadeContent (ok_eq k.2) (record {
      question = question_again row.question q.0 q.1;
      answer = answer_again row.answer a.0 a.1;
      category = category_again row.category k.0 k.1;
    })

to_desired_pair_parts :
    (row : SourceRow) (d : DesiredPair)
    → to_desired_pair row ≡ ok d
    → (external_id d.external_id.value ≡ ok d.external_id) × IsMadeContent d.content
unfolding to_desired_pair
to_desired_pair_parts row d h =
    let i = bind_parts (external_id row.external_id) _ h in
    let c = bind_parts (content_of row) _ i.2 in
    subst
      (λ (x : DesiredPair).
        (external_id x.external_id.value ≡ ok x.external_id) × IsMadeContent x.content)
      (ok_eq c.2) (external_id_again row.external_id i.0 i.1, content_of-IsMadeContent row c.1)

record IsMadePair (p : QaPair) : Type 0 where
  id : external_id p.id.value ≡ ok p.id
  content : IsMadeContent p.content

IsSynced-IsMadePair : {p : QaPair} → IsSynced p → IsMadePair p
unfolding register update_content
IsSynced-IsMadePair (is_registered now row d accepted) =
    let parts = to_desired_pair_parts row d accepted in record { id = parts.0; content = parts.1 }
IsSynced-IsMadePair (is_updated now row d {p = p} accepted synced) =
    let before = IsSynced-IsMadePair synced in
    elim (Bool-cases (content_beq d.content p.content)) [
      | inl e ↦ rw e before
      | inr e ↦ rw e (record { id = before.id; content = (to_desired_pair_parts row d accepted).1 })
    ]

-- A pair that the synchronisation registered for a source row, and updated from any others, is
-- stored in qa_pairs and loaded again as it was: no constructor rejects what the table gives back.
pub load_pair-store_pair : (p : QaPair) → IsSynced p → load_pair (store_pair p) ≡ ok p
unfolding load_pair store_pair
load_pair-store_pair p synced =
    let made = IsSynced-IsMadePair synced in
    rw (made.id, made.content.question, made.content.answer, made.content.category) refl
