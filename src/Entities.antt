-- ===== src/Entities.antt =====
-- domain/common/entity.py: what every entity shares. An attribute that is not set yet is `none`; a
-- subclass's own attributes are set without a check and are left out here.
use answer_service.Base.{
  ℕ, ◌≡◌, sym, ◌∙◌, ap, Bool, true, false, Option, none, some, List, [], ◌∷◌, ltb, if◌then◌else◌,
  arith,
}
use answer_service.Errors.{Result, ok, err, raise_if, ◌>>=◌, ◌>>◌, domain_error, inconsistent_time}

module _ (I : Type 0) where
  pub record Entity : Type 0 where
    pub id : Option I
    pub created_at : Option ℕ
    pub updated_at : Option ℕ

  -- `entity.<name> = value`
  pub data Assignment : Type 0 where
    to_id : I → Assignment
    to_created_at to_updated_at : ℕ → Assignment

-- `Entity.__post_init__`, of the two attributes' values.
unfoldable pub check_times : (created_at updated_at : ℕ) → Result (Unit {0})
check_times created_at updated_at = raise_if (ltb updated_at created_at) inconsistent_time

module _ {I : Type 0} where
  abbrev is_set : Option I → Bool
  is_set none = false
  is_set (some i) = true

  -- `Entity.__setattr__`
  unfoldable pub assign : Assignment I → Entity I → Result (Entity I)
  assign (to_id i) x = raise_if (is_set x.id) domain_error >> ok (record x { id = some i })
  assign (to_created_at moment) x = ok (record x { created_at = some moment })
  assign (to_updated_at moment) x = ok (record x { updated_at = some moment })

  -- The `__init__` of the dataclass: the assignments in the order of the fields, and the check.
  unfoldable pub construct : I → (created_at updated_at : ℕ) → Result (Entity I)
  unfolding assign check_times
  construct i created_at updated_at = do
    x ← assign (to_id i) (record { id = none; created_at = none; updated_at = none })
    y ← assign (to_created_at created_at) x
    z ← assign (to_updated_at updated_at) y
    check_times created_at updated_at
    ok z

  -- Assignments one after the other; the first that raises ends them.
  assign_all : List (Assignment I) → Entity I → Result (Entity I)
  unfolding assign
  assign_all [] x = ok x
  assign_all (a ∷ rest) x = assign a x >>= assign_all rest

  no_id_twice :
      (i j : I) (rest : List (Assignment I)) (x y : Entity I)
      → x.id ≡ some i
      → assign_all (to_id j ∷ rest) x ≡ ok y
      → ⊥
  unfolding assign assign_all
  no_id_twice i j rest x y set h = ground arith

  -- An entity that has an identifier keeps it, whatever is assigned.
  assign_all-keeps-id :
      (changes : List (Assignment I)) (i : I) (x y : Entity I)
      → x.id ≡ some i
      → assign_all changes x ≡ ok y
      → y.id ≡ some i
  unfolding assign assign_all
  assign_all-keeps-id [] i x y set h = cc
  assign_all-keeps-id (to_id j ∷ rest) i x y set h = elim (no_id_twice i j rest x y set h) [ ]
  assign_all-keeps-id (to_created_at m ∷ rest) i x y set h =
      assign_all-keeps-id rest i (record x { created_at = some m }) y set h
  assign_all-keeps-id (to_updated_at m ∷ rest) i x y set h =
      assign_all-keeps-id rest i (record x { updated_at = some m }) y set h

  -- A constructed entity has its identifier and ordered times, and every other construction raises.
  construct-ordered :
      (i : I) (created_at updated_at : ℕ)
      → construct i created_at updated_at ≡ (
          if ltb updated_at created_at
          then err inconsistent_time
          else ok
              (record { id = some i; created_at = some created_at; updated_at = some updated_at }))
  unfolding construct assign check_times
  construct-ordered i created_at updated_at = ground arith

module _ {I : Type 0} (id_beq : I → I → Bool) where
  abbrev same : Option I → Option I → Bool
  same (some i) (some j) = id_beq i j
  same none none = true
  same _ _ = false

  -- `Entity.__eq__` of two entities.
  unfoldable pub entity_beq : Entity I → Entity I → Bool
  entity_beq x y = same y.id x.id

  -- Assignments do not change what an entity equals.
  entity_beq-assign_all :
      (changes : List (Assignment I)) (i : I) (x y other : Entity I)
      → x.id ≡ some i
      → assign_all changes x ≡ ok y
      → entity_beq y other ≡ entity_beq x other
  unfolding entity_beq
  entity_beq-assign_all changes i x y other set h =
      ap (same other.id) (assign_all-keeps-id changes i x y set h ∙ sym set)
