-- ===== src/Indexing/Planner/Loop.antt =====
-- What the planner's loop leaves in its variables.
use answer_service.Base.{
  ◌≡◌, refl, sym, ap, Bool, true, false, not, ◌&&◌, ◌||◌, none, some, List, [], ◌∷◌, ◌++◌, map,
  filter, all, contains, distinct, arith, append-nil, append_assoc, Eq, ◌==◌, if◌then◌else◌,
}
use answer_service.Base.Dict.{get}
use answer_service.Errors.{ok, err, duplicate_external_id}
use answer_service.Indexing.Values.{ExternalId, external_id_eq, content_hash_eq}
use answer_service.Indexing.Fingerprint.{Digest, fingerprint}
use answer_service.Indexing.Pair.{DesiredPair}
use answer_service.Indexing.Planner.{Manifest, Progress, sort_pair, visit, loop}

abbrev pub ids : List DesiredPair → List ExternalId
ids ds = map (λ d. d.external_id) ds

-- No id of the list stands in `seen`, and none twice.
abbrev pub fresh : List ExternalId → List DesiredPair → Bool
fresh seen [] = true
fresh seen (d ∷ ds) = not (contains seen d.external_id) && fresh (d.external_id ∷ seen) ds

abbrev pub seen_after : List ExternalId → List DesiredPair → List ExternalId
seen_after seen [] = seen
seen_after seen (d ∷ ds) = seen_after (d.external_id ∷ seen) ds

pub contains-seen_after :
    (seen : List ExternalId) (ds : List DesiredPair) (i : ExternalId)
    → contains (seen_after seen ds) i ≡ (contains seen i || contains (ids ds) i)
contains-seen_after seen [] i = ground arith
contains-seen_after seen (d ∷ ds) i =
    ground (arith, contains-seen_after (d.external_id ∷ seen) ds i)

module _ {ℓ} {A : Type ℓ} ⦃e : Eq A⦄ where
  -- Elements that `seen` and `x` leave free are free of `seen`, and `x` is not among them.
  free-cons :
      (x : A) (seen xs : List A)
      → all (λ i. not (contains (x ∷ seen) i)) xs
        ≡ (not (contains xs x) && all (λ i. not (contains seen i)) xs)
  free-cons x seen [] = refl
  free-cons x seen (y ∷ ys) = ground (arith, e.beq_iff x y, e.beq_iff y x, free-cons x seen ys)

  free-nil : (xs : List A) → all (λ i. not (contains [] i)) xs ≡ true
  free-nil [] = refl
  free-nil (x ∷ xs) = free-nil xs

fresh-eq :
    (seen : List ExternalId) (ds : List DesiredPair)
    → fresh seen ds ≡ (distinct (ids ds) && all (λ i. not (contains seen i)) (ids ds))
fresh-eq seen [] = refl
fresh-eq seen (d ∷ ds) =
    ground (arith, fresh-eq (d.external_id ∷ seen) ds, free-cons d.external_id seen (ids ds))

pub fresh-eq-distinct : (ds : List DesiredPair) → fresh [] ds ≡ distinct (ids ds)
fresh-eq-distinct ds = ground (arith, fresh-eq [] ds, free-nil (ids ds))

module _ (sha256 : Digest) (current : Manifest) where
  -- The pair is not in the catalog.
  abbrev pub is_new : DesiredPair → Bool
  is_new d = elim (get current d.external_id) [ none ↦ true | some h ↦ false ]

  -- The pair is in the catalog under another fingerprint.
  abbrev pub is_changed : DesiredPair → Bool
  is_changed d = elim (get current d.external_id) [
    | none ↦ false
    | some h ↦ not (h == fingerprint sha256 d.content)
  ]

  -- The pair is in the catalog under its own fingerprint.
  abbrev pub is_same : DesiredPair → Bool
  is_same d = elim (get current d.external_id) [
    | none ↦ false
    | some h ↦ h == fingerprint sha256 d.content
  ]

  abbrev pub gathered : Progress → List DesiredPair → Progress
  gathered p ds = record {
    to_create = p.to_create ++ filter is_new ds;
    to_update = p.to_update ++ filter is_changed ds;
    skipped = p.skipped ++ ids (filter is_same ds);
    seen = seen_after p.seen ds;
  }

  gathered-nil : (p : Progress) → gathered p [] ≡ p
  gathered-nil p = simp append-nil

  gathered-cons :
      (p : Progress) (d : DesiredPair) (ds : List DesiredPair)
      → gathered
          (sort_pair sha256 current d
            (get current d.external_id)
            (record p { seen = d.external_id ∷ p.seen }))
          ds
        ≡ gathered p (d ∷ ds)
  unfolding sort_pair
  gathered-cons p d ds = ground (
    arith,
    append_assoc p.to_create (d ∷ []) (filter is_new ds),
    append_assoc p.to_update (d ∷ []) (filter is_changed ds),
    append_assoc p.skipped (d.external_id ∷ []) (ids (filter is_same ds)),
  )

  pub loop_lem :
      (ds : List DesiredPair) (p : Progress)
      → loop sha256 current ds p
        ≡ (if fresh p.seen ds then ok (gathered p ds) else err duplicate_external_id)
  unfolding loop visit
  loop_lem [] p = ap ok (sym (gathered-nil p))
  loop_lem (d ∷ ds) p = ground (
    arith,
    loop_lem ds (
        sort_pair sha256 current d (get current d.external_id)
          (record p { seen = d.external_id ∷ p.seen })),
    gathered-cons p d ds,
  )
