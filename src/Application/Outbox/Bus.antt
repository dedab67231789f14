-- ===== src/Application/Outbox/Bus.antt =====
-- What publishing leaves in the outbox.
use answer_service.Base.{
  ℕ, ◌≡◌, refl, sym, ◌∙◌, ap, none, List, [], ◌∷◌, ◌++◌, append-nil, append_assoc,
}
use answer_service.Errors.{Result, ok}
use answer_service.Application.Io.{>>=-eq-ok}
use answer_service.Application.Scope.{Scope, on_store, on_store-eq-ok}
use answer_service.Application.Ports.{Environment, OutboxMessage, OutboxGateway}
use answer_service.Indexing.Event.{Event, event_type, set_event_id, set_event_date}
use answer_service.Application.Outbox.{Dump, serialize, publish}

-- What the gateway's table holds: a successful `add` appends the row, and reading the clock or the id
-- generator leaves the table alone.
pub record OutboxTable {S : Type 0} (env : Environment S) (gateway : OutboxGateway S)
    (rows : S → List OutboxMessage) : Type 0 where
  pub add_ok :
      (m : OutboxMessage) (s : S)
      → (gateway.add m s).0 ≡ ok tt
      → rows (gateway.add m s).1 ≡ rows s ++ m ∷ []
  pub now_keeps : (s : S) → rows (env.now s).1 ≡ rows s
  pub uuid4_keeps : (s : S) → rows (env.uuid4 s).1 ≡ rows s

module _ (dump : Dump) where
  -- The row records the event: its type, its body under some stamp, and that it is not delivered yet.
  pub record Records (e : Event) (m : OutboxMessage) : Type 0 where
    pub type_kept : m.event_type ≡ event_type e.body
    pub waiting : m.processed_at ≡ none
    pub stamp_id : ℕ
    pub stamp_date : ℕ
    pub body_kept : m.payload ≡ dump (set_event_date stamp_date (set_event_id stamp_id e))

  abbrev pub RecordsAll : List Event → List OutboxMessage → Type 0
  RecordsAll [] [] = Unit
  RecordsAll [] (m ∷ ms) = ⊥
  RecordsAll (e ∷ es) [] = ⊥
  RecordsAll (e ∷ es) (m ∷ ms) = Records e m × RecordsAll es ms

module _ {S : Type 0} (env : Environment S) (dump : Dump) (gateway : OutboxGateway S)
    (rows : S → List OutboxMessage) (table : OutboxTable env gateway rows) where
  -- The four reads of a serialization, and the row that it makes of them.
  abbrev s1 : S → S
  s1 s = (env.uuid4 s).1

  abbrev s2 : S → S
  s2 s = (env.now (s1 s)).1

  abbrev s3 : S → S
  s3 s = (env.uuid4 (s2 s)).1

  abbrev s4 : S → S
  s4 s = (env.now (s3 s)).1

  abbrev row : Event → S → OutboxMessage
  row e s = record {
    id = (env.uuid4 (s2 s)).0;
    event_type = event_type e.body;
    payload = dump (set_event_date (env.now (s1 s)).0 (set_event_id (env.uuid4 s).0 e));
    created_at = (env.now (s3 s)).0;
    processed_at = none;
  }

  serialize-row :
      (e : Event) (w : Scope S)
      → serialize env dump e w ≡ (ok (row e w.store), record w { store = s4 w.store })
  unfolding serialize
  serialize-row e w = refl

  row-Records : (e : Event) (s : S) → Records dump e (row e s)
  row-Records e s = record {
    type_kept = refl;
    waiting = refl;
    stamp_id = (env.uuid4 s).0;
    stamp_date = (env.now (s1 s)).0;
    body_kept = refl;
  }

  rows-s4 : (s : S) → rows (s4 s) ≡ rows s
  rows-s4 s =
      table.now_keeps (s3 s)
      ∙ table.uuid4_keeps (s2 s)
      ∙ table.now_keeps (s1 s)
      ∙ table.uuid4_keeps s

  add-rows :
      (m : OutboxMessage) (w t : Scope S) {a : Unit {0}}
      → on_store (gateway.add m) w ≡ (ok a, t)
      → (rows t.store ≡ rows w.store ++ m ∷ []) × (t.events ≡ w.events)
  add-rows m w t h =
      let (stored, kept) = on_store-eq-ok (gateway.add m) w t h in
      let returned = ap (λ (q : Result (Unit {0}) × S). q.0) stored in
      let left = ap (λ (q : Result (Unit {0}) × S). rows q.1) stored in
      (sym left ∙ table.add_ok m w.store returned, kept)

  -- Publishing that returns has appended one row for each event, in their order.
  pub publish-RecordsAll :
      (es : List Event) (w : Scope S) {v : Scope S}
      → publish env dump gateway es w ≡ (ok tt, v)
      → (ms : List OutboxMessage) × (rows v.store ≡ rows w.store ++ ms)
        × RecordsAll dump es ms
        × (v.events ≡ w.events)
  unfolding publish
  publish-RecordsAll [] w {v} h =
      let e : w ≡ v = ap (λ (q : Result (Unit {0}) × Scope S). q.1) h in
      ([], rw (← e) (sym (append-nil (rows w.store))), tt, rw (← e) refl)
  publish-RecordsAll (e ∷ es) w {v} h =
      let m = row e w.store in
      let (_, t, added, rest) =
        >>=-eq-ok (on_store (gateway.add m)) (λ _. publish env dump gateway es)
          (record w { store = s4 w.store }) h in
      let (here, untouched) = add-rows m (record w { store = s4 w.store }) t added in
      let (ms, grown, recorded, kept) = publish-RecordsAll es t rest in
      (
        m ∷ ms,
        grown
            ∙ ap (λ l. l ++ ms) (here ∙ ap (λ l. l ++ m ∷ []) (rows-s4 w.store))
            ∙ append_assoc (rows w.store) (m ∷ []) ms,
        (row-Records e w.store, recorded),
        kept ∙ untouched,
      )
