-- ===== src/Mediator/Chain.antt =====
-- infrastructure/mediator/chain.py: a handler wrapped in its pipelines.
use mathlib.Core.List.{reverse, reverse-cons, foldl, foldl-append}
use answer_service.Base.{◌≡◌, refl, ◌∙◌, ap, List, [], ◌∷◌}
use answer_service.Application.Io.{Io}

abbrev pub HandleNext : Type 0 → Type 0 → Type 0 → Type 0
HandleNext S Request Response = Request → Io S Response

abbrev pub Pipeline : Type 0 → Type 0 → Type 0 → Type 0
Pipeline S Request Response = Request → HandleNext S Request Response → Io S Response

module _ {S Request Response : Type 0} where
  -- `_wrap_with_pipeline`
  abbrev pub wrap_with_pipeline :
      HandleNext S Request Response → Pipeline S Request Response → HandleNext S Request Response
  wrap_with_pipeline handle_next pipeline request = pipeline request handle_next

  -- The loop over `reversed(list(pipeline_handlers))`.
  unfoldable pub build_pipeline_handlers :
      HandleNext S Request Response
      → List (Pipeline S Request Response)
      → HandleNext S Request Response
  build_pipeline_handlers handler pipelines = foldl wrap_with_pipeline handler (reverse pipelines)

  -- With no pipeline the chain is the handler. Else the first pipeline is outermost: it runs first,
  -- and its `handle_next` is the chain of the others.
  pub build-outermost_first :
      (handler : HandleNext S Request Response) (first : Pipeline S Request Response)
      (rest : List (Pipeline S Request Response)) (request : Request)
      → (build_pipeline_handlers handler [] request ≡ handler request)
        × (build_pipeline_handlers handler (first ∷ rest) request
            ≡ first request (build_pipeline_handlers handler rest))
  unfolding build_pipeline_handlers
  build-outermost_first handler first rest request = (
    refl,
    ap (λ (h : HandleNext S Request Response). h request)
        (ap (foldl wrap_with_pipeline handler) (reverse-cons first rest)
          ∙ foldl-append wrap_with_pipeline handler (reverse rest) (first ∷ [])),
  )

  pub build_two :
      (handler : HandleNext S Request Response) (first second : Pipeline S Request Response)
      → build_pipeline_handlers handler (first ∷ second ∷ [])
        ≡ (λ request. first request (λ r. second r handler))
  unfolding build_pipeline_handlers
  build_two handler first second = refl

  pub build_one :
      (handler : HandleNext S Request Response) (first : Pipeline S Request Response)
      → build_pipeline_handlers handler (first ∷ []) ≡ (λ request. first request handler)
  unfolding build_pipeline_handlers
  build_one handler first = refl

  pub build_none :
      (handler : HandleNext S Request Response) → build_pipeline_handlers handler [] ≡ handler
  unfolding build_pipeline_handlers
  build_none handler = refl
