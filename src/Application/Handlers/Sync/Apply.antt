-- ===== src/Application/Handlers/Sync/Apply.antt =====
-- What each loop of `_apply` does to the catalog, when it returns.
use answer_service.Base.{
  ◌≡◌, sym, ◌∙◌, ap, Bool, true, false, Option, none, some, List, [], ◌∷◌, contains, ◌==◌,
  if◌then◌else◌, ℕ, arith,
}
use answer_service.Errors.{Result, ok}
use answer_service.Application.Io.{>>=-eq-ok}
use answer_service.Application.Scope.{Scope, on_store, on_store-eq-ok}
use answer_service.Application.Ports.{Environment, CatalogGateway}
use answer_service.Application.Handlers.Sync.{
  delete_existing, apply_deletes, create_pair, apply_creates, update_existing, apply_updates,
}
use answer_service.Application.Handlers.Sync.Laws.{seal, CatalogLaws}
use answer_service.Indexing.Values.{ExternalId, ContentHash, external_id_eq}
use answer_service.Indexing.Fingerprint.{Digest, QaContent, fingerprint, content_beq_iff}
use answer_service.Indexing.Pair.{QaPair, DesiredPair, register, update_content}

-- A catalog of fingerprints.
abbrev pub View : Type 0
View = ExternalId → Option ContentHash

abbrev pub without : List ExternalId → View → View
without ds f j = if contains ds j then none else f j

abbrev pub overwrite : Option ContentHash → ContentHash → Option ContentHash
overwrite none h = none
overwrite (some _) h = some h

module _ (sha256 : Digest) where
  abbrev pub create_one : DesiredPair → View → View
  create_one p f j = if p.external_id == j then some (fingerprint sha256 p.content) else f j

  abbrev pub created : List DesiredPair → View → View
  created [] f = f
  created (p ∷ ps) f = created ps (create_one p f)

  abbrev pub update_one : DesiredPair → View → View
  update_one p f j =
      if p.external_id == j then overwrite (f j) (fingerprint sha256 p.content) else f j

  abbrev pub updated : List DesiredPair → View → View
  updated [] f = f
  updated (p ∷ ps) f = updated ps (update_one p f)

  pub created-ext :
      (ps : List DesiredPair) (f g : View)
      → ((j : ExternalId) → f j ≡ g j)
      → (j : ExternalId) → created ps f j ≡ created ps g j
  created-ext [] f g h j = h j
  created-ext (p ∷ ps) f g h j = created-ext ps (create_one p f) (create_one p g) (λ i. rw (h i)) j

  pub updated-ext :
      (ps : List DesiredPair) (f g : View)
      → ((j : ExternalId) → f j ≡ g j)
      → (j : ExternalId) → updated ps f j ≡ updated ps g j
  updated-ext [] f g h j = h j
  updated-ext (p ∷ ps) f g h j = updated-ext ps (update_one p f) (update_one p g) (λ i. rw (h i)) j

-- The ids of the added pairs, the last one first.
abbrev pub staging : List DesiredPair → List ExternalId → List ExternalId
staging [] xs = xs
staging (p ∷ ps) xs = staging ps (p.external_id ∷ xs)

abbrev pub none_staged : List DesiredPair → List ExternalId → Bool
none_staged [] xs = true
none_staged (p ∷ ps) xs = if contains xs p.external_id then false else none_staged ps xs

module _ {S : Type 0} (env : Environment S) (catalog : CatalogGateway S) (sha256 : Digest)
    (lookup : S → ExternalId → Option QaPair) (staged : S → List ExternalId)
    (laws : CatalogLaws env catalog sha256 lookup staged) where
  abbrev pub view : Scope S → View
  view w j = seal sha256 (lookup w.store j)

  -- After the coroutine the catalog's view is `f`, and the staged ids are `new`.
  abbrev pub Leaves : Scope S → View → List ExternalId → Type 0
  Leaves t f new = ((j : ExternalId) → view t j ≡ f j) × (staged t.store ≡ new)

  same_store : (w t : Scope S) → w.store ≡ t.store → Leaves t (view w) (staged w.store)
  same_store w t e = ((λ j. ap (λ s. seal sha256 (lookup s j)) (sym e)), ap staged (sym e))

  returned :
      (w t : Scope S)
      → ◌≡◌ {A = Result (Unit {0}) × Scope S} (ok tt, w) (ok tt, t)
      → w.store ≡ t.store
  returned w t h = ap (λ (q : Result (Unit {0}) × Scope S). q.1.store) h

  delete_existing-view :
      (i : ExternalId) (found : Option QaPair) (w t : Scope S)
      → found ≡ lookup w.store i
      → staged w.store ≡ []
      → delete_existing env catalog i found w ≡ (ok tt, t)
      → Leaves t (without (i ∷ []) (view w)) []
  unfolding delete_existing
  delete_existing-view i none w t hf hs h =
      let (v, st) = same_store w t (returned w t h) in
      ((λ j. ground (arith, v j, hf, external_id_eq.beq_iff i j)), st ∙ hs)
  delete_existing-view i (some p) w t hf hs h =
      let (ds, _) = on_store-eq-ok (catalog.delete_by_id i) _ t h in
      let (gone, stays) = laws.delete_ok w.store t.store i ds (rw hs) in
      ((λ j. ground (arith, gone j)), stays ∙ hs)

  pub apply_deletes-view :
      (ds : List ExternalId) (w t : Scope S)
      → staged w.store ≡ []
      → apply_deletes env catalog ds w ≡ (ok tt, t)
      → Leaves t (without ds (view w)) []
  unfolding apply_deletes
  apply_deletes-view [] w t hs h = let (v, st) = same_store w t (returned w t h) in (v, st ∙ hs)
  apply_deletes-view (i ∷ rest) w t hs h =
      let (found, w₁, r, k) = >>=-eq-ok (on_store (catalog.read_by_id i)) _ w h in
      let (_, w₂, d, k₂) = >>=-eq-ok (delete_existing env catalog i found) _ w₁ k in
      let (rs, _) = on_store-eq-ok (catalog.read_by_id i) w w₁ r in
      let (finds, same, stays) = laws.read_ok w.store w₁.store i found rs in
      let (gone, none_staged) =
        delete_existing-view i found w₁ w₂ (finds (rw hs) ∙ sym (same i)) (stays ∙ hs) d in
      let (rec, none_staged') = apply_deletes-view rest w₂ t none_staged k₂ in
      ((λ j. ground (arith, rec j, gone j, same j)), none_staged')

  create_pair-view :
      (p : DesiredPair) (w t : Scope S)
      → create_pair env catalog p w ≡ (ok tt, t)
      → Leaves t (create_one sha256 p (view w)) (p.external_id ∷ staged w.store)
  unfolding create_pair register
  create_pair-view p w t h =
      let (same, stays) = laws.now_keeps w.store in
      let (a, _) = on_store-eq-ok (catalog.add _) _ t h in
      let (put_there, stages) = laws.add_ok _ t.store _ a in
      ((λ j. ground (arith, put_there j, same j)), stages ∙ ap (λ xs. p.external_id ∷ xs) stays)

  pub apply_creates-view :
      (ps : List DesiredPair) (w t : Scope S)
      → apply_creates env catalog ps w ≡ (ok tt, t)
      → Leaves t (created sha256 ps (view w)) (staging ps (staged w.store))
  unfolding apply_creates
  apply_creates-view [] w t h = same_store w t (returned w t h)
  apply_creates-view (p ∷ rest) w t h =
      let (_, w₁, c, k) = >>=-eq-ok (create_pair env catalog p) _ w h in
      let (v₁, s₁) = create_pair-view p w w₁ c in
      let (v, st) = apply_creates-view rest w₁ t k in
      ((λ j. v j ∙ created-ext sha256 rest _ _ v₁ j), st ∙ ap (staging rest) s₁)

  update_content-writes :
      (now : ℕ) (c : QaContent) (at : ℕ) (q : QaPair)
      → ((update_content now c at q).0.id ≡ q.id) × ((update_content now c at q).0.content ≡ c)
  unfolding update_content
  update_content-writes now c at q = ground (arith, content_beq_iff c q.content)

  update_existing-view :
      (p : DesiredPair) (found : Option QaPair) (w t : Scope S)
      → found ≡ lookup w.store p.external_id
      → contains (staged w.store) p.external_id ≡ false
      → update_existing env catalog p found w ≡ (ok tt, t)
      → Leaves t (update_one sha256 p (view w)) (staged w.store)
  unfolding update_existing update_content
  update_existing-view p none w t hf hs h =
      let (v, st) = same_store w t (returned w t h) in
      ((λ j. ground (arith, v j, hf, external_id_eq.beq_iff p.external_id j)), st)
  update_existing-view p (some q) w t hf hs h =
      let (same, stays) = laws.now_keeps w.store in
      let (now, s₁) = env.now w.store in
      let (at_id, has_content) = update_content-writes now p.content p.source_updated_at q in
      let q_id : q.id ≡ p.external_id = laws.lookup_id w.store p.external_id q (sym hf) in
      let (a, _) = on_store-eq-ok (catalog.update _) _ t h in
      let (put_there, st) = laws.update_ok s₁ t.store _ a (rw (stays, at_id, q_id, hs)) in
      (
        (λ j. ground (
          arith,
          put_there j,
          same j,
          hf,
          at_id,
          q_id,
          has_content,
          external_id_eq.beq_iff p.external_id j,
        )),
        st ∙ stays,
      )

  pub apply_updates-view :
      (ps : List DesiredPair) (w t : Scope S)
      → none_staged ps (staged w.store) ≡ true
      → apply_updates env catalog ps w ≡ (ok tt, t)
      → Leaves t (updated sha256 ps (view w)) (staged w.store)
  unfolding apply_updates
  apply_updates-view [] w t hs h = same_store w t (returned w t h)
  apply_updates-view (p ∷ rest) w t hs h =
      let (found, w₁, r, k) = >>=-eq-ok (on_store (catalog.read_by_id p.external_id)) _ w h in
      let (_, w₂, d, k₂) = >>=-eq-ok (update_existing env catalog p found) _ w₁ k in
      let (rs, _) = on_store-eq-ok (catalog.read_by_id p.external_id) w w₁ r in
      let (finds, same, stays) = laws.read_ok w.store w₁.store p.external_id found rs in
      let free : contains (staged w.store) p.external_id ≡ false = ground (arith, hs) in
      let (v₂, s₂) =
        update_existing-view p found w₁ w₂ (finds free ∙ sym (same p.external_id))
          (rw (stays, free)) d in
      let left : none_staged rest (staged w.store) ≡ true = ground (arith, hs) in
      let (v, st) = apply_updates-view rest w₂ t (rw (s₂, stays, left)) k₂ in
      (
        (λ j. v j ∙ updated-ext sha256 rest _ _ (λ i. ground (arith, v₂ i, same i)) j),
        st ∙ s₂ ∙ stays,
      )
