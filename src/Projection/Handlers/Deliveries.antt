-- ===== src/Projection/Handlers/Deliveries.antt =====
-- Sequences of projection messages, as the outbox delivers them: late ones and repeated ones too.
use answer_service.Base.{
  ◌≡◌, refl, sym, ◌∙◌, ap, Bool, true, false, ◌||◌, Option, none, some, List, [], ◌∷◌, ◌==◌,
  if◌then◌else◌, arith,
}
use answer_service.Errors.{Result, ok}
use answer_service.Application.Io.{>>=-eq-ok}
use answer_service.Application.Ports.{
  Environment, TransactionManager, CatalogGateway, OutboxGateway,
}
use answer_service.Application.Outbox.{Dump}
use answer_service.Base.Text.{Text}
use answer_service.Indexing.Values.{ExternalId, external_id_eq}
use answer_service.Indexing.Event.{
  EventBody, qa_pair_added, qa_pair_content_updated, qa_pair_removed,
}
use answer_service.Indexing.Pair.{QaPair}
use answer_service.Projection.Writer.{VectorStore, point_id_of}
use answer_service.Projection.Handlers.{project, deliver}
use answer_service.Projection.Handlers.Settled.{project-Effect}
use answer_service.Projection.Laws.{Point, point_of, IndexLaws, entry_after}

-- What messages say of a pair: nothing, that it is in the catalog, that it is removed.
pub data Said : Type 0 where
  nothing present removed : Said

abbrev if_hit : Bool → Said → Said
if_hit hit x = if hit then x else nothing

abbrev says : ExternalId → EventBody → Said
says i (qa_pair_added j) = if_hit (j == i) present
says i (qa_pair_content_updated j) = if_hit (j == i) present
says i (qa_pair_removed j) = if_hit (j == i) removed
says i _ = nothing

abbrev or_else : Said → Said → Said
or_else nothing x = x
or_else present x = present
or_else removed x = removed

-- The last message about the pair.
unfoldable pub last_said : ExternalId → List EventBody → Said
last_said i [] = nothing
last_said i (b ∷ bs) = or_else (last_said i bs) (says i b)

abbrev is_removed : Said → Bool
is_removed removed = true
is_removed _ = false

-- Some message removes the pair.
unfoldable pub any_removed : ExternalId → List EventBody → Bool
any_removed i [] = false
any_removed i (b ∷ bs) = is_removed (says i b) || any_removed i bs

abbrev by_last : QaPair → Said → Option Point → Option Point
by_last p nothing o = o
by_last p present o = some (point_of p)
by_last p removed o = none

-- Where the catalog has the pair, the last message about it decides; where it has not, one removal
-- is enough, and the additions and updates do nothing.
abbrev pub settled : Option QaPair → ExternalId → List EventBody → Option Point → Option Point
settled (some p) i bs o = by_last p (last_said i bs) o
settled none i bs o = if any_removed i bs then none else o

settled-entry_after :
    (pair : Option QaPair) (i : ExternalId) (b : EventBody) (bs : List EventBody) (o : Option Point)
    → settled pair i bs (entry_after pair i b o) ≡ settled pair i (b ∷ bs) o
unfolding last_said any_removed
settled-entry_after pair i b bs o = ground arith

settled-nil : (pair : Option QaPair) (i : ExternalId) (o : Option Point) → settled pair i [] o ≡ o
unfolding last_said any_removed
settled-nil none i o = refl
settled-nil (some p) i o = refl

module _ {S : Type 0} (env : Environment S) (manager : TransactionManager S) (dump : Dump)
    (outbox : OutboxGateway S) (catalog : CatalogGateway S) (vectors : VectorStore S)
    (live : S → ExternalId → Option QaPair) (point : S → Text → Option Point)
    (laws : IndexLaws manager catalog vectors live point) where
  -- Once the catalog no longer changes, a sequence of messages that have all been worked off leaves, at
  -- each id, what the last message about it says where the catalog has the pair, and nothing where it
  -- has not and one of them is a removal; every other entry is as it was.
  pub deliver-settles :
      (bs : List EventBody) (s t : S)
      → deliver env manager dump outbox catalog vectors bs s ≡ (ok tt, t)
      → (i : ExternalId)
      → point t (point_id_of vectors i) ≡ settled (live s i) i bs (point s (point_id_of vectors i))
  unfolding deliver
  deliver-settles [] s t h i =
      rw (sym (ap (λ (q : Result (Unit {0}) × S). q.1) h)) (sym (settled-nil (live s i) i _))
  deliver-settles (b ∷ bs) s t h i =
      let (_, u, first, rest) =
        >>=-eq-ok (project env manager dump outbox catalog vectors b)
          (λ _. deliver env manager dump outbox catalog vectors bs) s h in
      let effect =
        project-Effect env manager dump outbox catalog vectors live point laws b s u first in
      deliver-settles bs u t rest i
      ∙ rw (ap (λ (f : ExternalId → Option QaPair). f i) effect.same_catalog, effect.entries i)
          (settled-entry_after (live s i) i b bs (point s (point_id_of vectors i)))
