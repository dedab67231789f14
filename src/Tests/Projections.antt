-- ===== src/Tests/Projections.antt =====
-- The search index beside a catalog in memory.
use answer_service.Base.{
  ℕ, suc, ◌≡◌, refl, sym, ap, Option, none, some, List, [], ◌∷◌, ◌==◌, if◌then◌else◌,
}
use answer_service.Base.Text.{Text, text, text_eq, text_beq, strip}
use answer_service.Errors.{Result, ok}
use answer_service.Application.Ports.{
  Environment, TransactionManager, CatalogGateway, OutboxGateway,
}
use answer_service.Application.Outbox.{publish}
use answer_service.Indexing.Values.{ExternalId, external_id, external_id_eq}
use answer_service.Indexing.Event.{qa_pair_added, qa_pair_removed}
use answer_service.Indexing.Pair.{QaPair}
use answer_service.Projection.Writer.{VectorStore, point_id_of}
use answer_service.Projection.Handlers.{project, deliver}
use answer_service.Projection.Laws.{Point, point_of, IndexLaws}
use answer_service.Projection.Handlers.Deliveries.{deliver-settles, settled}
use answer_service.Tests.Data.{id_a, pair_a}
use answer_service.Tests.Memory.{find_pair, find_pair-id}

pub record Indexed : Type 0 where
  pub pairs : List QaPair
  pub points : Text → Option Point
  pub clock : ℕ

abbrev pub live : Indexed → ExternalId → Option QaPair
live s = find_pair s.pairs

abbrev env : Environment Indexed
env = record { now = λ s. (s.clock, s); uuid4 = λ s. (s.clock, record s { clock = suc s.clock }) }

abbrev manager : TransactionManager Indexed
manager = record { commit = λ s. (ok tt, s); rollback = λ s. (ok tt, s) }

abbrev outbox : OutboxGateway Indexed
outbox = record {
  add = λ m s. (ok tt, s);
  read_pending = λ n s. (ok [], s);
  mark_processed = λ i s. (ok tt, s);
}

abbrev catalog : CatalogGateway Indexed
catalog = record {
  add = λ p s. (ok tt, record s { pairs = p ∷ s.pairs });
  read_by_id = λ i s. (ok (find_pair s.pairs i), s);
  update = λ p s. (ok tt, record s { pairs = p ∷ s.pairs });
  delete_by_id = λ i s. (ok tt, s);
  read_fingerprints = λ s. (ok [], s);
}

abbrev first_of {ℓ} : {A : Type ℓ} → List A → A → A
first_of [] a = a
first_of (b ∷ bs) a = b

abbrev vectors : VectorStore Indexed
vectors = record {
  uuid5 = λ name. name;
  aadd_texts = λ texts metadatas ids s. (
    ok tt,
    record s {
      points = λ j.
          if first_of ids [] == j
          then some (first_of texts [], first_of metadatas [])
          else s.points j;
    },
  );
  adelete = λ ids s.
      (ok tt, record s { points = λ j. if first_of ids [] == j then none else s.points j });
}

module _ {A : Type 0} {a b : A} {s t : Indexed} where
  result : ◌≡◌ {A = Result A × Indexed} (ok a, s) (ok b, t) → a ≡ b
  result h = let e : ok a ≡ ok b = ap (λ (q : Result A × Indexed). q.0) h in cc e

  state : ◌≡◌ {A = Result A × Indexed} (ok a, s) (ok b, t) → t ≡ s
  state h = sym (ap (λ (q : Result A × Indexed). q.1) h)

vectors-IndexLaws : IndexLaws manager catalog vectors live (λ s. s.points)
vectors-IndexLaws = record {
  reads_pair = λ i s t o h. (
    sym (result h),
    ap (λ (x : Indexed). live x) (state h),
    ap (λ (x : Indexed). x.points) (state h),
  );
  pair_id = λ i s p h. find_pair-id s.pairs i p h;
  adds_point = λ c m k s t h.
      (ap (λ (x : Indexed). live x) (state h), λ j. ap (λ (x : Indexed). x.points j) (state h));
  deletes_point = λ k s t h.
      (ap (λ (x : Indexed). live x) (state h), λ j. ap (λ (x : Indexed). x.points j) (state h));
  commit_keeps = λ s. (refl, refl);
  uuid5-injective = λ a b h. h;
}

abbrev start : Indexed
start = record { pairs = pair_a ∷ []; points = λ j. none; clock = 0 }

-- The pair is in the catalog, and a removal that comes late takes it out of the index.
abbrev late : Indexed
late = record start {
  points =
      λ j. if text "a" == j then none else if text "a" == j then some (point_of pair_a) else none;
}

deliver-settles_example :
    late.points (point_id_of vectors id_a)
    ≡ settled
        (live start id_a)
        id_a
        (qa_pair_added id_a ∷ qa_pair_removed id_a ∷ [])
        (start.points (point_id_of vectors id_a))
unfolding deliver project publish external_id strip text_beq point_of
deliver-settles_example =
    deliver-settles env manager (λ e. []) outbox catalog vectors live (λ s. s.points)
      vectors-IndexLaws (qa_pair_added id_a ∷ qa_pair_removed id_a ∷ []) start late refl id_a
