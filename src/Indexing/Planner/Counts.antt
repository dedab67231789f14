-- ===== src/Indexing/Planner/Counts.antt =====
-- The plan's counters account for every source pair and for every catalog entry.
use answer_service.Base.{
  ◌+◌, ◌≡◌, refl, Bool, true, false, not, none, some, List, [], ◌∷◌, filter, length, contains,
  distinct, arith, Eq, if◌then◌else◌, length-map, subst,
}
use answer_service.Base.Dict.{get, keys, Dict}
use answer_service.Errors.{ok}
use answer_service.Indexing.Values.{ExternalId, ContentHash, external_id_eq}
use answer_service.Indexing.Fingerprint.{Digest}
use answer_service.Indexing.Pair.{DesiredPair}
use answer_service.Indexing.Planner.{Manifest, SyncPlan, plan}
use answer_service.Indexing.Planner.Loop.{ids, is_new, is_changed, is_same}
use answer_service.Indexing.Planner.Outcome.{diff, plan-eq-ok}

module _ {ℓ} {A : Type ℓ} ⦃e : Eq A⦄ where
  filter-contains-cons :
      (x : A) (xs ys : List A)
      → distinct ys ≡ true
      → contains xs x ≡ false
      → length (filter (contains (x ∷ xs)) ys)
        ≡ (if contains ys x then 1 else 0) + length (filter (contains xs) ys)
  filter-contains-cons x xs [] d f = refl
  filter-contains-cons x xs (y ∷ ys) d f =
      ground (arith, e.beq_iff x y, e.beq_iff y x, filter-contains-cons x xs ys)

  filter-contains-nil : (ys : List A) → length (filter (contains []) ys) ≡ 0
  filter-contains-nil [] = refl
  filter-contains-nil (y ∷ ys) = filter-contains-nil ys

  -- Two lists with no repetition have as many elements in common counted from either side.
  length-common :
      (xs ys : List A)
      → distinct xs ≡ true
      → distinct ys ≡ true
      → length (filter (contains ys) xs) ≡ length (filter (contains xs) ys)
  length-common [] ys d f = ground (arith, filter-contains-nil ys)
  length-common (x ∷ xs) ys d f = ground (arith, filter-contains-cons x xs ys, length-common xs ys)

  pub length-filter-not :
      (p : A → Bool) (xs : List A)
      → length (filter p xs) + length (filter (λ x. not (p x)) xs) ≡ length xs
  length-filter-not p [] = refl
  length-filter-not p (x ∷ xs) = ground (arith, length-filter-not p xs)

  pub get-none_iff {κ} :
      {V : Type κ} (m : Dict A V) (k : A)
      → elim (get m k) [ none ↦ false | some v ↦ true ] ≡ contains (keys m) k
  get-none_iff [] k = refl
  get-none_iff ((j, v) ∷ m) k = ground (arith, get-none_iff m k)

module _ (sha256 : Digest) (current : Manifest) where
  length-sorted :
      (ds : List DesiredPair)
      → length (filter (is_new sha256 current) ds)
          + length (filter (is_changed sha256 current) ds)
          + length (filter (is_same sha256 current) ds)
        ≡ length ds
  length-sorted [] = refl
  length-sorted (d ∷ ds) = ground (arith, length-sorted ds)

  length-known :
      (ds : List DesiredPair)
      → length (filter (is_changed sha256 current) ds) + length (filter (is_same sha256 current) ds)
        ≡ length (filter (contains (keys current)) (ids ds))
  length-known [] = refl
  length-known (d ∷ ds) = ground (arith, length-known ds, get-none_iff current d.external_id)

  abbrev pub Accounts : List DesiredPair → SyncPlan → Type 0
  Accounts desired p =
      (length p.to_create + length p.to_update + length p.skipped ≡ length desired)
      × (length p.to_delete + length p.to_update + length p.skipped ≡ length current)

  diff-Accounts :
      (desired : List DesiredPair)
      → distinct (keys current) ≡ true
      → distinct (ids desired) ≡ true
      → Accounts desired (diff sha256 current desired)
  diff-Accounts desired d u = omega (
    arith,
    length-sorted desired,
    length-known desired,
    length-map (λ (x : DesiredPair). x.external_id) (filter (is_same sha256 current) desired),
    length-common (keys current) (ids desired) d u,
    length-filter-not (contains (ids desired)) (keys current),
    length-map (λ (x : ExternalId × ContentHash). x.0) current,
  )

  -- A plan creates, updates or skips each source pair once. It deletes, updates or skips each entry
  -- of a catalog, in which no id stands twice, once.
  pub plan-counts :
      (desired : List DesiredPair) (p : SyncPlan)
      → distinct (keys current) ≡ true
      → plan sha256 current desired ≡ ok p
      → Accounts desired p
  plan-counts desired p d h =
      let (u, e) = plan-eq-ok sha256 current desired h in
      subst (Accounts desired) e (diff-Accounts desired d u)
