-- ===== src/Application/Scope.antt =====
-- What a request-scoped container holds (setup/ioc/providers/domain_provider.py): one store, reached
-- through the gateways, and one EventsCollection (domain/common/events_collection.py), which the
-- aggregates and the pipelines of every command of the scope share.
use answer_service.Base.{◌≡◌, sym, ap, List, [], ◌++◌, map}
use answer_service.Errors.{Result, ok}
use answer_service.Application.Io.{Io}
use answer_service.Indexing.Event.{Event, EventBody, event}

pub record Scope (S : Type 0) : Type 0 where
  pub store : S
  pub events : List Event

-- `make_events_collection`: a scope starts with an empty collection.
abbrev pub open_scope : {S : Type 0} → S → Scope S
open_scope s = record { store = s; events = [] }

module _ {S : Type 0} where
  -- A gateway's call.
  abbrev pub on_store : {A : Type 0} → Io S A → Io (Scope S) A
  on_store m w = ((m w.store).0, record w { store = (m w.store).1 })

  -- A read of the clock or of the id generator, which cannot raise.
  abbrev pub ask : {A : Type 0} → (S → A × S) → Io (Scope S) A
  ask f w = (ok (f w.store).0, record w { store = (f w.store).1 })

  -- `events_collection.add_event` for each event that a method of an aggregate adds.
  abbrev pub add_events : List EventBody → Io (Scope S) (Unit {0})
  add_events es w = (ok tt, record w { events = w.events ++ map event es })

  -- `pull_events`: a copy, and the collection cleared.
  abbrev pub pull_events : Io (Scope S) (List Event)
  pull_events w = (ok w.events, record w { events = [] })

module _ {S A : Type 0} where
  -- A gateway's call that returns, read off the store, and the events that it leaves alone.
  pub on_store-eq-ok :
      (m : Io S A) (w t : Scope S) {a : A}
      → on_store m w ≡ (ok a, t)
      → (m w.store ≡ (ok a, t.store)) × (t.events ≡ w.events)
  on_store-eq-ok m w t h = (
    ap (λ (q : Result A × Scope S). (q.0, q.1.store)) h,
    sym (ap (λ (q : Result A × Scope S). q.1.events) h),
  )
