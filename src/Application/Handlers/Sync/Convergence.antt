-- ===== src/Application/Handlers/Sync/Convergence.antt =====
-- A run makes the catalog say what its source says.
use answer_service.Base.{◌≡◌, sym, ◌∙◌, ap, subst, true, Option, List, []}
use answer_service.Base.Dict.{get}
use answer_service.Errors.{Result, ok}
use answer_service.Application.Io.{lift, >>=-eq-ok}
use answer_service.Application.Scope.{Scope, on_store, on_store-eq-ok}
use answer_service.Application.Ports.{Environment, CatalogGateway, SourceFiles}
use answer_service.Application.Handlers.Sync.{apply_deletes, apply_creates, apply, synchronise}
use answer_service.Application.Handlers.Sync.Laws.{seal, CatalogLaws}
use answer_service.Application.Handlers.Sync.Apply.{
  created-ext, updated-ext, view, staging, none_staged, apply_deletes-view, apply_creates-view,
  apply_updates-view,
}
use answer_service.Indexing.Values.{ExternalId, SyncStats, external_id_eq, content_hash_eq}
use answer_service.Indexing.Fingerprint.{Digest}
use answer_service.Indexing.Pair.{QaPair, DesiredPair}
use answer_service.Indexing.Planner.{SyncPlan, plan}
use answer_service.Indexing.Planner.Outcome.{plan-eq-ok}
use answer_service.Application.Handlers.Sync.Difference.{
  source_view, result_of, result_of-diff, diff-none_staged,
}

module _ {S Bytes : Type 0} (env : Environment S) (catalog : CatalogGateway S) (sha256 : Digest)
    (files : SourceFiles S Bytes) (lookup : S → ExternalId → Option QaPair)
    (staged : S → List ExternalId) (laws : CatalogLaws env catalog sha256 lookup staged) where
  apply-view :
      (p : SyncPlan) (w t : Scope S)
      → staged w.store ≡ []
      → none_staged p.to_update (staging p.to_create []) ≡ true
      → apply env catalog p w ≡ (ok tt, t)
      → (j : ExternalId)
      → view env catalog sha256 lookup staged laws t j
        ≡ result_of sha256 p (view env catalog sha256 lookup staged laws w) j
  unfolding apply
  apply-view p w t hs free h j =
      let (_, w₁, a, k) = >>=-eq-ok (apply_deletes env catalog p.to_delete) _ w h in
      let (_, w₂, b, k₂) = >>=-eq-ok (apply_creates env catalog p.to_create) _ w₁ k in
      let (v₁, s₁) =
        apply_deletes-view env catalog sha256 lookup staged laws p.to_delete w w₁ hs a in
      let (v₂, s₂) = apply_creates-view env catalog sha256 lookup staged laws p.to_create w₁ w₂ b in
      let (v₃, _) =
        apply_updates-view env catalog sha256 lookup staged laws p.to_update w₂ t
          (rw (s₂, s₁, free)) k₂ in
      v₃ j
      ∙ updated-ext sha256 p.to_update _ _ (λ i. v₂ i ∙ created-ext sha256 p.to_create _ _ v₁ i) j

  -- A run that returns, from a session with nothing staged, leaves a catalog whose fingerprints are
  -- those of the source: each source pair is there under its fingerprint, and nothing else is.
  pub synchronise-converges :
      (desired : List DesiredPair) (w t : Scope S) (run_stats : SyncStats)
      → staged w.store ≡ []
      → synchronise env catalog sha256 files desired w ≡ (ok run_stats, t)
      → (j : ExternalId) → seal sha256 (lookup t.store j) ≡ source_view sha256 desired j
  unfolding synchronise
  synchronise-converges desired w t run_stats hs h j =
      let (m, w₁, r, k) = >>=-eq-ok (on_store catalog.read_fingerprints) _ w h in
      let (p, w₂, planned, k₂) = >>=-eq-ok (lift (plan sha256 m desired)) _ w₁ k in
      let (_, w₃, applied, counted) = >>=-eq-ok (apply env catalog p) _ w₂ k₂ in
      let (rs, _) = on_store-eq-ok catalog.read_fingerprints w w₁ r in
      let (reads, same, stays) = laws.fingerprints_ok w.store w₁.store m rs hs in
      let (u, e) =
        plan-eq-ok sha256 m desired (ap (λ (q : Result SyncPlan × Scope S). q.0) planned) in
      let at : w₁ ≡ w₂ = ap (λ (q : Result SyncPlan × Scope S). q.1) planned in
      let end : w₃ ≡ t = ap (λ (q : Result SyncStats × Scope S). q.1) counted in
      let free : none_staged p.to_update (staging p.to_create []) ≡ true =
        subst (λ (q : SyncPlan). none_staged q.to_update (staging q.to_create []) ≡ true) e
          (diff-none_staged sha256 m desired) in
      let staged₂ : staged w₂.store ≡ [] =
        ap (λ (v : Scope S). staged v.store) (sym at) ∙ stays ∙ hs in
      let view₂ : seal sha256 (lookup w₂.store j) ≡ get m j =
        ap (λ (v : Scope S). seal sha256 (lookup v.store j)) (sym at)
        ∙ ap (seal sha256) (same j)
        ∙ sym (reads j) in
      ap (λ (v : Scope S). seal sha256 (lookup v.store j)) (sym end)
      ∙ apply-view p w₂ w₃ staged₂ free applied j
      ∙ subst
          (λ (q : SyncPlan).
            result_of sha256 q (λ i. seal sha256 (lookup w₂.store i)) j
            ≡ source_view sha256 desired j)
          e (result_of-diff sha256 m desired (λ i. seal sha256 (lookup w₂.store i)) j u view₂)
