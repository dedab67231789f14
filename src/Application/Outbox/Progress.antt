-- ===== src/Application/Outbox/Progress.antt =====
-- A message that cannot be published does not hold up the others, and the counters of a tick.
use answer_service.Base.{
  ℕ, ◌+◌, ◌≤◌, ◌≡◌, sym, ◌∙◌, ap, subst, ◌⊎◌, inl, inr, Bool, true, false, List, [], ◌∷◌, length,
  arith, nat_eq,
}
use answer_service.Errors.{Result, ok, Result-cases}
use answer_service.Application.Io.{Io, >>=-eq-ok, >>=-keeps}
use answer_service.Application.Ports.{OutboxMessage, OutboxGateway}
use answer_service.Application.Outbox.{
  RelayOutboxResponse, attempt, settle, relay_loop, relay_outbox, answer,
}
use answer_service.Application.Outbox.Relay.{RelayPorts, attempt-state}

module _ {S : Type 0} (gateway : OutboxGateway S)
    (publisher : OutboxMessage → Io S (Unit {0})) where
  settle-bounds :
      (m : OutboxMessage) (n : ℕ) (b : Bool) (s : S) {k : ℕ} {t : S}
      → settle gateway publisher m n b s ≡ (ok k, t)
      → (n ≤ k) × (k ≤ n + 1)
  unfolding settle
  settle-bounds m n true s h = ground (arith, Result-cases (gateway.mark_processed m.id s).0)
  settle-bounds m n false s h = ground arith

  relay_loop-bounds :
      (ms : List OutboxMessage) (n : ℕ) (s : S) {k : ℕ} {t : S}
      → relay_loop gateway publisher ms n s ≡ (ok k, t)
      → (n ≤ k) × (k ≤ n + length ms)
  unfolding relay_loop
  relay_loop-bounds [] n s h = ground arith
  relay_loop-bounds (m ∷ ms) n s h =
      let (b, s1, tried, rest) = >>=-eq-ok (attempt gateway publisher m) _ s h in
      let (n', s2, settled, rest') = >>=-eq-ok (settle gateway publisher m n b) _ s1 rest in
      omega (arith, settle-bounds m n b s1 settled, relay_loop-bounds ms n' s2 rest')

  -- The counters of a tick that returns: `total` is the size of the batch that was read, at most
  -- that many messages were published.
  pub relay_outbox-counts :
      (batch_size : ℕ) (s : S) {r : RelayOutboxResponse} {t : S}
      → relay_outbox gateway publisher batch_size s ≡ (ok r, t)
      → (ms : List OutboxMessage) × ((gateway.read_pending batch_size s).0 ≡ ok ms)
        × (r.total ≡ length ms)
        × (r.published ≤ r.total)
  unfolding relay_outbox
  relay_outbox-counts batch_size s {r} h =
      let (ms, s1, read, rest) = >>=-eq-ok (gateway.read_pending batch_size) _ s h in
      let (total, fits) = counted ms s1 rest in
      (ms, ap (λ (q : Result (List OutboxMessage) × S). q.0) read, total, fits)
    where
      counted :
          (ms : List OutboxMessage) (s1 : S) {t1 : S}
          → answer gateway publisher ms s1 ≡ (ok r, t1)
          → (r.total ≡ length ms) × (r.published ≤ r.total)
      counted [] s1 e = ground arith
      counted (m ∷ ms) s1 e =
          let (n, s2, looped, done) = >>=-eq-ok (relay_loop gateway publisher (m ∷ ms) 0) _ s1 e in
          let made = relay_loop-bounds (m ∷ ms) 0 s1 looped in ground arith

-- A mark that returns marks its row, and no mark is ever taken back.
pub record Marks {S : Type 0} (gateway : OutboxGateway S) (marked : S → ℕ → Bool) : Type 0 where
  pub mark_marks :
      (j : ℕ) (s : S)
      → (gateway.mark_processed j s).0 ≡ ok tt
      → marked (gateway.mark_processed j s).1 j ≡ true
  pub mark_keeps_marks :
      (j : ℕ) (s : S) (i : ℕ) → marked s i ≡ true → marked (gateway.mark_processed j s).1 i ≡ true

module _ {S : Type 0} (gateway : OutboxGateway S) (publisher : OutboxMessage → Io S (Unit {0}))
    (marked delivered : S → ℕ → Bool) (ports : RelayPorts gateway publisher marked delivered)
    (marks : Marks gateway marked) where
  settle-keeps_marks :
      (m : OutboxMessage) (n : ℕ) (b : Bool) (s : S) (i : ℕ)
      → marked s i ≡ true
      → marked (settle gateway publisher m n b s).1 i ≡ true
  unfolding settle
  settle-keeps_marks m n true s i h =
      >>=-keeps (λ t. marked t i ≡ true) (gateway.mark_processed m.id) _ s
        (marks.mark_keeps_marks m.id s i h) λ _ _. marks.mark_keeps_marks m.id s i h
  settle-keeps_marks m n false s i h = h

  attempt-marks :
      (m : OutboxMessage) (s : S) (i : ℕ) → marked (attempt gateway publisher m s).1 i ≡ marked s i
  attempt-marks m s i = rw (attempt-state gateway publisher m s) (ports.publish_marks_none m s i)

  relay_loop-keeps_marks :
      (ms : List OutboxMessage) (n : ℕ) (s : S) (i : ℕ)
      → marked s i ≡ true
      → marked (relay_loop gateway publisher ms n s).1 i ≡ true
  unfolding relay_loop
  relay_loop-keeps_marks [] n s i h = h
  relay_loop-keeps_marks (m ∷ ms) n s i h =
      let here = attempt-marks m s i ∙ h in
      let s1 = (attempt gateway publisher m s).1 in
      >>=-keeps (λ t. marked t i ≡ true) (attempt gateway publisher m) _ s here
        λ b _.
          let next = settle-keeps_marks m n b s1 i here in
          >>=-keeps (λ t. marked t i ≡ true) (settle gateway publisher m n b) _ s1 next
            λ n' _. relay_loop-keeps_marks ms n' (settle gateway publisher m n b s1).1 i next

  -- The publisher takes this message whenever it is offered.
  abbrev pub Deliverable : OutboxMessage → Type 0
  Deliverable m = (s : S) → (publisher m s).0 ≡ ok tt

  attempt_of_Deliverable :
      (m : OutboxMessage) (s : S)
      → Deliverable m
      → attempt gateway publisher m s ≡ (ok true, (publisher m s).1)
  unfolding attempt
  attempt_of_Deliverable m s d = rw (d s)

  settle-marks :
      (m : OutboxMessage) (n : ℕ) (s : S) {k : ℕ} {t : S}
      → settle gateway publisher m n true s ≡ (ok k, t)
      → marked t m.id ≡ true
  unfolding settle
  settle-marks m n s {k} {t} h =
      let (_, s1, done, rest) = >>=-eq-ok (gateway.mark_processed m.id) _ s h in
      let last = ap (λ (q : Result ℕ × S). marked q.1 m.id) rest in
      let state = ap (λ (q : Result (Unit {0}) × S). marked q.1 m.id) done in
      sym last ∙ sym state ∙ marks.mark_marks m.id s (ap (λ (q : Result (Unit {0}) × S). q.0) done)

  -- Among the messages of the loop.
  abbrev pub Offered : OutboxMessage → List OutboxMessage → Type 0
  Offered m [] = ⊥
  Offered m (x ∷ xs) = (m ≡ x) ⊎ Offered m xs

  relay_loop-marks :
      (ms : List OutboxMessage) (n : ℕ) (s : S) (m : OutboxMessage) {k : ℕ} {t : S}
      → Deliverable m
      → Offered m ms
      → relay_loop gateway publisher ms n s ≡ (ok k, t)
      → marked t m.id ≡ true
  unfolding relay_loop
  relay_loop-marks [] n s m d o h = absurd o
  relay_loop-marks (x ∷ xs) n s m {k} {t} d o h =
      let (b, s1, tried, rest) = >>=-eq-ok (attempt gateway publisher x) _ s h in
      let (n', s2, settled, rest') = >>=-eq-ok (settle gateway publisher x n b) _ s1 rest in
      elim o [
        | inr later ↦ relay_loop-marks xs n' s2 m d later rest'
        | inl e ↦
            let taken = attempt_of_Deliverable x s (subst Deliverable e d) in
            let truth : b ≡ true = cc in
            let here = settle-marks x n s1 (rw truth at settled) in
            let kept = relay_loop-keeps_marks xs n' s2 x.id here in
            let state = ap (λ (q : Result ℕ × S). marked q.1 x.id) rest' in rw e (sym state ∙ kept)
      ]

  answer-marks :
      (ms : List OutboxMessage) (s : S) (m : OutboxMessage) {r : RelayOutboxResponse} {t : S}
      → Deliverable m
      → Offered m ms
      → answer gateway publisher ms s ≡ (ok r, t)
      → marked t m.id ≡ true
  answer-marks [] s m d o h = absurd o
  answer-marks (x ∷ xs) s m d o h =
      let (n, s1, looped, done) = >>=-eq-ok (relay_loop gateway publisher (x ∷ xs) 0) _ s h in
      let state = ap (λ (q : Result RelayOutboxResponse × S). marked q.1 m.id) done in
      sym state ∙ relay_loop-marks (x ∷ xs) 0 s m d o looped

  -- Whatever other messages of the batch fail to publish: a tick that returns has marked each message
  -- of its batch that the publisher takes.
  pub relay_outbox-not_blocked :
      (batch_size : ℕ) (s : S) (m : OutboxMessage) (ms : List OutboxMessage)
      {r : RelayOutboxResponse} {t : S}
      → (gateway.read_pending batch_size s).0 ≡ ok ms
      → Offered m ms
      → Deliverable m
      → relay_outbox gateway publisher batch_size s ≡ (ok r, t)
      → marked t m.id ≡ true
  unfolding relay_outbox
  relay_outbox-not_blocked batch_size s m ms read o d h =
      let (ms', s1, read', rest) = >>=-eq-ok (gateway.read_pending batch_size) _ s h in
      let first = ap (λ (q : Result (List OutboxMessage) × S). q.0) read' in
      let same : ms ≡ ms' = cc in answer-marks ms' s1 m d (subst (Offered m) same o) rest
