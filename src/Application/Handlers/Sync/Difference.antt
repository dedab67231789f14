-- ===== src/Application/Handlers/Sync/Difference.antt =====
-- The plan's deletes, creates and updates turn a catalog of fingerprints into the source's.
use answer_service.Base.{
  ◌≡◌, refl, ◌∙◌, Bool, true, false, not, ◌||◌, Option, none, some, List, [], ◌∷◌, map, filter,
  contains, distinct, ◌==◌, if◌then◌else◌, arith,
}
use answer_service.Base.Dict.{get, keys}
use answer_service.Application.Handlers.Sync.Apply.{
  View, without, create_one, created, overwrite, update_one, updated, staging, none_staged,
}
use answer_service.Indexing.Values.{ExternalId, ContentHash, external_id_eq, content_hash_eq}
use answer_service.Indexing.Fingerprint.{Digest, fingerprint}
use answer_service.Indexing.Pair.{DesiredPair}
use answer_service.Indexing.Planner.{Manifest, SyncPlan}
use answer_service.Indexing.Planner.Loop.{ids, is_new, is_changed}
use answer_service.Indexing.Planner.Outcome.{diff}
use answer_service.Indexing.Planner.Counts.{get-none_iff}

-- The second, or the first where there is no second.
abbrev pub or_else : Option ContentHash → Option ContentHash → Option ContentHash
or_else old none = old
or_else old (some h) = some h

abbrev pub overwrite_by : Option ContentHash → Option ContentHash → Option ContentHash
overwrite_by old none = old
overwrite_by old (some h) = overwrite old h

module _ (sha256 : Digest) where
  -- The source as a catalog of fingerprints.
  abbrev pub seals : List DesiredPair → Manifest
  seals ds = map (λ d. (d.external_id, fingerprint sha256 d.content)) ds

  abbrev pub source_view : List DesiredPair → View
  source_view ds = get (seals ds)

  source_view-none :
      (ds : List DesiredPair) (i : ExternalId)
      → contains (ids ds) i ≡ false
      → source_view ds i ≡ none
  source_view-none [] i h = refl
  source_view-none (d ∷ ds) i h = ground (arith, source_view-none ds i)

  created-eq :
      (ps : List DesiredPair) (f : View) (j : ExternalId)
      → distinct (ids ps) ≡ true
      → created sha256 ps f j ≡ or_else (f j) (source_view ps j)
  created-eq [] f j h = refl
  created-eq (p ∷ ps) f j h = ground (
    arith,
    created-eq ps (create_one sha256 p f) j,
    source_view-none ps p.external_id,
    external_id_eq.beq_iff p.external_id j,
  )

  updated-eq :
      (ps : List DesiredPair) (f : View) (j : ExternalId)
      → distinct (ids ps) ≡ true
      → updated sha256 ps f j ≡ overwrite_by (f j) (source_view ps j)
  updated-eq [] f j h = refl
  updated-eq (p ∷ ps) f j h = ground (
    arith,
    updated-eq ps (update_one sha256 p f) j,
    source_view-none ps p.external_id,
    external_id_eq.beq_iff p.external_id j,
  )

  -- A choice that looks at an entry's id and fingerprint only.
  abbrev pub keep_if : (ContentHash → Bool) → Option ContentHash → Option ContentHash
  keep_if q none = none
  keep_if q (some h) = if q h then some h else none

  module _ (q : ExternalId → ContentHash → Bool) where
    abbrev chosen : DesiredPair → Bool
    chosen d = q d.external_id (fingerprint sha256 d.content)

    contains-filter :
        (ds : List DesiredPair) (i : ExternalId)
        → contains (ids ds) i ≡ false
        → contains (ids (filter chosen ds)) i ≡ false
    contains-filter [] i h = refl
    contains-filter (d ∷ ds) i h = ground (arith, contains-filter ds i)

    distinct-filter :
        (ds : List DesiredPair)
        → distinct (ids ds) ≡ true
        → distinct (ids (filter chosen ds)) ≡ true
    distinct-filter [] h = refl
    distinct-filter (d ∷ ds) h =
        ground (arith, distinct-filter ds, contains-filter ds d.external_id)

    source_view-filter :
        (ds : List DesiredPair) (i : ExternalId)
        → distinct (ids ds) ≡ true
        → source_view (filter chosen ds) i ≡ keep_if (q i) (source_view ds i)
    source_view-filter [] i h = refl
    source_view-filter (d ∷ ds) i h = ground (
      arith,
      source_view-filter ds i,
      source_view-none (filter chosen ds) i,
      source_view-none ds d.external_id,
      contains-filter ds d.external_id,
      external_id_eq.beq_iff d.external_id i,
    )

  -- The deletes, creates and updates of the diff, one after the other.
  abbrev pub result_of : SyncPlan → View → View
  result_of p f = updated sha256 p.to_update (created sha256 p.to_create (without p.to_delete f))

  module _ (current : Manifest) where
    abbrev new_at : ExternalId → ContentHash → Bool
    new_at i h = elim (get current i) [ none ↦ true | some k ↦ false ]

    abbrev changed_at : ExternalId → ContentHash → Bool
    changed_at i h = elim (get current i) [ none ↦ false | some k ↦ not (k == h) ]

    contains-keys-filter :
        (ds : List DesiredPair) (ks : List ExternalId) (i : ExternalId)
        → contains (filter (λ k. not (contains (ids ds) k)) ks) i
          ≡ (if contains (ids ds) i then false else contains ks i)
    contains-keys-filter ds [] i = ground arith
    contains-keys-filter ds (k ∷ ks) i =
        ground (arith, contains-keys-filter ds ks i, external_id_eq.beq_iff k i)

    -- An id is in the source exactly when the source has a fingerprint for it.
    source_view-known :
        (ds : List DesiredPair) (i : ExternalId)
        → elim (source_view ds i) [ none ↦ false | some v ↦ true ] ≡ contains (ids ds) i
    source_view-known [] i = refl
    source_view-known (d ∷ ds) i = ground (arith, source_view-known ds i)

    settles :
        (old : Option ContentHash) (wanted : Option ContentHash) (known here : Bool)
        → elim wanted [ none ↦ false | some v ↦ true ] ≡ here
        → elim old [ none ↦ false | some v ↦ true ] ≡ known
        → overwrite_by
            (or_else
              (if (if here then false else known) then none else old)
              (keep_if (λ h. elim old [ none ↦ true | some k ↦ false ]) wanted))
            (keep_if (λ h. elim old [ none ↦ false | some k ↦ not (k == h) ]) wanted)
          ≡ wanted
    settles none none known here eh ek = ground arith
    settles none (some h) known here eh ek = ground arith
    settles (some k) none known here eh ek = ground arith
    settles (some k) (some h) known here eh ek = ground (arith, content_hash_eq.beq_iff k h)

    pub result_of-diff :
        (ds : List DesiredPair) (f : View) (j : ExternalId)
        → distinct (ids ds) ≡ true
        → f j ≡ get current j
        → result_of (diff sha256 current ds) f j ≡ source_view ds j
    result_of-diff ds f j u e = rw (
      updated-eq (filter (is_changed sha256 current) ds) _ j (distinct-filter changed_at ds u),
      created-eq (filter (is_new sha256 current) ds) _ j (distinct-filter new_at ds u),
      source_view-filter changed_at ds j u,
      source_view-filter new_at ds j u,
      contains-keys-filter ds (keys current) j,
      e,
      settles (get current j) (source_view ds j) (contains (keys current) j) (contains (ids ds) j)
          (source_view-known ds j) (get-none_iff current j),
    )

    -- The staged ids are new, and an id that is updated is not.
    not_new :
        (ds : List DesiredPair) (i : ExternalId) (h : ContentHash)
        → get current i ≡ some h
        → contains (ids (filter (is_new sha256 current) ds)) i ≡ false
    not_new [] i h e = refl
    not_new (d ∷ ds) i h e = ground (arith, not_new ds i h, external_id_eq.beq_iff d.external_id i)

    contains-staging :
        (ps : List DesiredPair) (xs : List ExternalId) (i : ExternalId)
        → contains (staging ps xs) i ≡ (contains (ids ps) i || contains xs i)
    contains-staging [] xs i = ground arith
    contains-staging (p ∷ ps) xs i = ground (arith, contains-staging ps (p.external_id ∷ xs) i)

    none_staged-changed :
        (ds : List DesiredPair) (xs : List ExternalId)
        → ((i : ExternalId) (h : ContentHash) → get current i ≡ some h → contains xs i ≡ false)
        → none_staged (filter (is_changed sha256 current) ds) xs ≡ true
    none_staged-changed [] xs free = refl
    none_staged-changed (d ∷ ds) xs free =
        go (none_staged-changed ds xs free) (get current d.external_id) refl
      where
        go :
            none_staged (filter (is_changed sha256 current) ds) xs ≡ true
            → (old : Option ContentHash) → get current d.external_id ≡ old
            → none_staged (filter (is_changed sha256 current) (d ∷ ds)) xs ≡ true
        go rec none e = ground arith
        go rec (some h) e = ground (arith, free d.external_id h e)

    pub diff-none_staged :
        (ds : List DesiredPair)
        → none_staged
            (diff sha256 current ds).to_update
            (staging (diff sha256 current ds).to_create [])
          ≡ true
    diff-none_staged ds =
        none_staged-changed ds _ (λ i h e.
          contains-staging (filter (is_new sha256 current) ds) [] i ∙ rw (not_new ds i h e))
