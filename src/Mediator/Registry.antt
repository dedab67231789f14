-- ===== src/Mediator/Registry.antt =====
-- infrastructure/mediator/registry.py and mediator.py: which handler and which pipelines a request
-- travels through. `T` is the type of request classes, `H` and `P` those of handler and pipeline
-- classes; `issubclass` is Python's.
pub mod Production
use answer_service.Base.{
  ◌≡◌, refl, Bool, true, false, ◌&&◌, ◌||◌, Option, none, some, List, [], ◌∷◌, ◌++◌, map, contains,
  Eq, ◌==◌, arith, if◌then◌else◌,
}
use answer_service.Base.Dict.{Dict, get, put}
use answer_service.Errors.{handler_not_found}
use answer_service.Application.Io.{Io, raise}
use answer_service.Mediator.Chain.{HandleNext, Pipeline, build_pipeline_handlers}

pub record Registry (T H P : Type 0) : Type 0 where
  pub request_handlers : Dict T H
  pub pipeline_handlers : Dict T (List P)

abbrev pub or_empty {ℓ} : {A : Type ℓ} → Option (List A) → List A
or_empty none = []
or_empty (some xs) = xs

module _ {T H P : Type 0} ⦃e : Eq T⦄ where
  abbrev pub add_request_handler : T → H → Registry T H P → Registry T H P
  add_request_handler t h r = record r { request_handlers = put r.request_handlers t h }

  -- `setdefault(request_type, []).extend(pipeline_handlers)`
  abbrev pub add_pipeline_handlers : T → List P → Registry T H P → Registry T H P
  add_pipeline_handlers t ps r = record r {
    pipeline_handlers = put r.pipeline_handlers t (or_empty (get r.pipeline_handlers t) ++ ps);
  }

  abbrev pub get_request_handler : Registry T H P → T → Option H
  get_request_handler r t = get r.request_handlers t

module _ {T P : Type 0} (issubclass : T → T → Bool) where
  -- The comprehension over the registered types.
  pub collect : Dict T (List P) → T → List P
  collect [] t = []
  collect ((registered, ps) ∷ m) t =
      if issubclass t registered then ps ++ collect m t else collect m t

module _ {T H P : Type 0} (issubclass : T → T → Bool) where
  unfoldable pub get_pipeline_handlers : Registry T H P → T → List P
  unfolding collect
  get_pipeline_handlers r t = collect issubclass r.pipeline_handlers t

-- `MediatorImpl.send`. The resolver builds a handler or a pipeline from its class: that is the
-- dependency container's, and a parameter.
module _ {S T H P Request Response : Type 0} ⦃e : Eq T⦄ (issubclass : T → T → Bool)
    (type_of : Request → T) (resolve : H → HandleNext S Request Response)
    (resolve_pipeline : P → Pipeline S Request Response) where
  abbrev dispatch : Registry T H P → Request → Option H → Io S Response
  dispatch r request none = raise handler_not_found
  dispatch r request (some handler_type) =
      build_pipeline_handlers (resolve handler_type)
        (map resolve_pipeline (get_pipeline_handlers issubclass r (type_of request))) request

  unfoldable pub send : Registry T H P → Request → Io S Response
  send r request = dispatch r request (get_request_handler r (type_of request))

module _ {T P : Type 0} ⦃e : Eq T⦄ ⦃p : Eq P⦄ (issubclass : T → T → Bool) where
  contains-append :
      (xs ys : List P) (a : P) → contains (xs ++ ys) a ≡ (contains xs a || contains ys a)
  contains-append [] ys a = refl
  contains-append (x ∷ xs) ys a = ground (arith, contains-append xs ys a)

  contains-collect-put :
      (m : Dict T (List P)) (t q : T) (ps : List P) (a : P)
      → contains (collect issubclass (put m t (or_empty (get m t) ++ ps)) q) a
        ≡ (contains (collect issubclass m q) a || (issubclass q t && contains ps a))
  unfolding collect
  contains-collect-put [] t q ps a = ground (arith, contains-append ps [] a)
  contains-collect-put ((j, qs) ∷ m) t q ps a = ground (
    arith,
    e.beq_iff j t,
    contains-collect-put m t q ps a,
    contains-append (qs ++ ps) (collect issubclass m q) a,
    contains-append qs (collect issubclass m q) a,
    contains-append qs ps a,
    contains-append qs (collect issubclass (put m t (or_empty (get m t) ++ ps)) q) a,
  )

  -- Registering pipelines for a type adds them to that type and everything below it, and nothing else.
  pub get_pipeline_handlers-add :
      {H : Type 0} (r : Registry T H P) (t q : T) (ps : List P) (a : P)
      → contains (get_pipeline_handlers issubclass (add_pipeline_handlers t ps r) q) a
        ≡ (contains (get_pipeline_handlers issubclass r q) a || (issubclass q t && contains ps a))
  unfolding get_pipeline_handlers
  get_pipeline_handlers-add r t q ps a = contains-collect-put r.pipeline_handlers t q ps a
