-- ===== src/Database/Catalog/Reads.antt =====
-- The dictionaries that the catalog's gateway reads say what the table has stored.
use answer_service.Base.{
  ◌≡◌, refl, sym, ◌∙◌, ap, Bool, true, false, Option, none, some, List, [], ◌∷◌, contains, length,
  ◌==◌, if◌then◌else◌, inl, inr, Option-cases,
}
use answer_service.Base.Text.{Text}
use answer_service.Base.Dict.{Dict, get, put, get-put}
use answer_service.Errors.{Result, ok, ◌>>=◌}
use answer_service.Application.Handlers.Sync.Laws.{seal}
use answer_service.Indexing.Values.{ExternalId, external_id_eq, sha256_hex_length}
use answer_service.Indexing.Fingerprint.{Digest, fingerprint, content_hash_of-fingerprint}
use answer_service.Indexing.Pair.{QaPair}
use answer_service.Indexing.Planner.{Manifest}
use answer_service.Search.Hybrid.{QaPairView}
use answer_service.Database.Session.{Table, SelectLaws, row_of, kept, or_repo_error}
use answer_service.Database.Catalog.{
  view_of, views_from, hashes_from, hashed, viewed, read_views, sql_catalog_gateway,
}

-- A value of the row that is there, else the value that was there before.
abbrev made {ℓ} : {V : Type ℓ} → (QaPair → V) → Option QaPair → Option V → Option V
made f none before = before
made f (some p) before = some (f p)

abbrev id_of : QaPair → ExternalId
id_of p = p.id

module _ {ℓ} {V : Type ℓ} (f : QaPair → V) where
  -- What a comprehension makes of rows and of the dictionary made so far.
  abbrev entries : Dict ExternalId V → List QaPair → Dict ExternalId V
  entries d [] = d
  entries d (row ∷ rows) = entries (put d row.id (f row)) rows

  hit_or_before :
      (hit : Bool) (row : QaPair) (before : Option V)
      → (if hit then some (f row) else before) ≡ made f (if hit then some row else none) before
  hit_or_before true row before = refl
  hit_or_before false row before = refl

  get-entries :
      (d : Dict ExternalId V) (rows : List QaPair) (i : ExternalId)
      → get (entries d rows) i ≡ made f (row_of id_of i rows) (get d i)
  get-entries d [] i = refl
  get-entries d (row ∷ rows) i =
      get-entries (put d row.id (f row)) rows i ∙ elim (Option-cases (row_of id_of i rows)) [
        | inl e ↦ rw (e, get-put d row.id (f row) i) (hit_or_before (row.id == i) row (get d i))
        | inr e ↦ rw e.1 refl
      ]

-- The view of the stored pair, for an id that is asked for.
abbrev pub asked : List ExternalId → ExternalId → Option QaPair → Option QaPairView
asked ids i pair = if contains ids i then made view_of pair none else none

views_from-entries :
    (d : Dict ExternalId QaPairView) (rows : List QaPair)
    → views_from d rows ≡ entries view_of d rows
unfolding views_from
views_from-entries d [] = refl
views_from-entries d (row ∷ rows) = views_from-entries (put d row.id (view_of row)) rows

module _ (sha256 : Digest) (long : (s : Text) → length (sha256 s) ≡ sha256_hex_length) where
  hashes_from-entries :
      (d : Manifest) (rows : List QaPair)
      → hashes_from sha256 d rows ≡ ok (entries (λ p. fingerprint sha256 p.content) d rows)
  unfolding hashes_from
  hashes_from-entries d [] = refl
  hashes_from-entries d (row ∷ rows) =
      rw (content_hash_of-fingerprint sha256 long row.content)
        (hashes_from-entries (put d row.id (fingerprint sha256 row.content)) rows)

returned_value :
    {S A : Type 0} {r : Result A} {s t : S} {a : A}
    → ◌≡◌ {A = Result A × S} (r, s) (ok a, t)
    → r ≡ ok a
returned_value {S} {A} h = ap (λ (q : Result A × S). q.0) h

module _ {S : Type 0} (table : Table S QaPair) (stored : S → ExternalId → Option QaPair)
    (laws : SelectLaws id_of table stored) where
  sealed :
      (sha256 : Digest) (o : Option QaPair)
      → made (λ p. fingerprint sha256 p.content) (kept (λ p. true) o) none ≡ seal sha256 o
  sealed sha256 none = refl
  sealed sha256 (some p) = refl

  kept-asked :
      (ids : List ExternalId) (i : ExternalId) (pair : Option QaPair)
      → ((p : QaPair) → pair ≡ some p → p.id ≡ i)
      → made view_of (kept (λ p. contains ids p.id) pair) none ≡ asked ids i pair
  kept-asked ids i none at = no_view (contains ids i)
    where
      no_view : (b : Bool) → ◌≡◌ {A = Option QaPairView} none (if b then none else none)
      no_view true = refl
      no_view false = refl
  kept-asked ids i (some p) at =
      let same : contains ids p.id ≡ contains ids i = ap (contains ids) (at p refl) in
      ap (λ b. made view_of (if b then some p else none) none) same ∙ made_if (contains ids i) p
    where
      made_if :
          (b : Bool) (p : QaPair)
          → made view_of (if b then some p else none) none ≡ (if b then some (view_of p) else none)
      made_if true p = refl
      made_if false p = refl

  -- `read_views` has an entry for an id exactly if the id is asked for and the table has its pair, and
  -- that entry shows the stored pair; asked for no id, it runs no statement.
  pub get-read_views :
      (ids : List ExternalId) (s t : S) (views : Dict ExternalId QaPairView)
      → read_views table ids s ≡ (ok views, t)
      → (i : ExternalId) → get views i ≡ asked ids i (stored s i)
  unfolding read_views viewed
  get-read_views [] s t views h i =
      let e : ok [] ≡ ok views = returned_value h in
      let same : [] ≡ views = cc e in ap (λ d. get d i) (sym same)
  get-read_views (j ∷ js) s t views h i =
      go (table.select_columns (λ p. contains (j ∷ js) p.id) s).0 refl (returned_value h)
    where
      go :
          (o : Option (List QaPair))
          → (table.select_columns (λ p. contains (j ∷ js) p.id) s).0 ≡ o
          → (or_repo_error o >>= λ found. ok (views_from [] found)) ≡ ok views
          → get views i ≡ asked (j ∷ js) i (stored s i)
      go none e k = cc k
      go (some rows) e k =
          let u = (table.select_columns (λ p. contains (j ∷ js) p.id) s).1 in
          let same : views_from [] rows ≡ views = cc k in
          ap (λ d. get d i) (sym same)
          ∙ ap (λ d. get d i) (views_from-entries [] rows)
          ∙ get-entries view_of [] rows i
          ∙ ap (λ o. made view_of o none)
              (laws.selects (λ p. contains (j ∷ js) p.id) s u rows (λ k. (e k, u)) i)
          ∙ kept-asked (j ∷ js) i (stored s i) (laws.stored_key s i)

  module _ (sha256 : Digest) (long : (s : Text) → length (sha256 s) ≡ sha256_hex_length) where
    -- For a digest of 64 characters, `read_fingerprints` has for each stored pair the fingerprint of
    -- its content, and no other entry.
    pub get-read_fingerprints :
        (s t : S) (hashes : Manifest)
        → (sql_catalog_gateway table sha256).read_fingerprints s ≡ (ok hashes, t)
        → (i : ExternalId) → get hashes i ≡ seal sha256 (stored s i)
    unfolding sql_catalog_gateway hashed
    get-read_fingerprints s t hashes h i =
        go (table.select_columns (λ p. true) s).0 refl (returned_value h)
      where
        go :
            (o : Option (List QaPair))
            → (table.select_columns (λ p. true) s).0 ≡ o
            → (or_repo_error o >>= λ found. hashes_from sha256 [] found) ≡ ok hashes
            → get hashes i ≡ seal sha256 (stored s i)
        go none e k = cc k
        go (some rows) e k =
            let u = (table.select_columns (λ p. true) s).1 in
            let same : ok (entries (λ p. fingerprint sha256 p.content) [] rows) ≡ ok hashes =
              sym (hashes_from-entries sha256 long [] rows) ∙ k in
            let equal : entries (λ p. fingerprint sha256 p.content) [] rows ≡ hashes = cc same in
            ap (λ d. get d i) (sym equal)
            ∙ get-entries (λ p. fingerprint sha256 p.content) [] rows i
            ∙ ap (λ o. made (λ p. fingerprint sha256 p.content) o none)
                (laws.selects (λ p. true) s u rows (λ k. (e k, u)) i)
            ∙ sealed sha256 (stored s i)
