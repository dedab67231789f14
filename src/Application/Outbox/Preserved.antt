-- ===== src/Application/Outbox/Preserved.antt =====
-- What every call of the relay preserves, a tick of it preserves.
use answer_service.Base.{ℕ, Bool, true, false, List, [], ◌∷◌}
use answer_service.Application.Io.{Io, >>=-keeps}
use answer_service.Application.Ports.{OutboxMessage, OutboxGateway}
use answer_service.Application.Outbox.{attempt, settle, relay_loop, relay_outbox, answer}
use answer_service.Application.Outbox.Relay.{attempt-state}

module _ {S : Type 0} (gateway : OutboxGateway S) (publisher : OutboxMessage → Io S (Unit {0}))
    (P : S → Type 0) (publish_keeps : (m : OutboxMessage) (s : S) → P s → P (publisher m s).1)
    (mark_keeps : (j : ℕ) (s : S) → P s → P (gateway.mark_processed j s).1)
    (read_keeps : (n : ℕ) (s : S) → P s → P (gateway.read_pending n s).1) where
  settle-preserves :
      (m : OutboxMessage) (n : ℕ) (b : Bool) (s : S) → P s → P (settle gateway publisher m n b s).1
  unfolding settle
  settle-preserves m n true s h =
      >>=-keeps P (gateway.mark_processed m.id) _ s (mark_keeps m.id s h) λ _ _. mark_keeps m.id s h
  settle-preserves m n false s h = h

  relay_loop-preserves :
      (ms : List OutboxMessage) (n : ℕ) (s : S) → P s → P (relay_loop gateway publisher ms n s).1
  unfolding relay_loop
  relay_loop-preserves [] n s h = h
  relay_loop-preserves (m ∷ ms) n s h =
      let s1 = (attempt gateway publisher m s).1 in
      let tried : P s1 = rw (attempt-state gateway publisher m s) (publish_keeps m s h) in
      >>=-keeps P (attempt gateway publisher m) _ s tried λ b _.
        let settled = settle-preserves m n b s1 tried in
        >>=-keeps P (settle gateway publisher m n b) _ s1 settled
          λ n' _. relay_loop-preserves ms n' (settle gateway publisher m n b s1).1 settled

  pub relay_outbox-preserves :
      (batch_size : ℕ) (s : S) → P s → P (relay_outbox gateway publisher batch_size s).1
  unfolding relay_outbox
  relay_outbox-preserves batch_size s h =
      >>=-keeps P (gateway.read_pending batch_size) _ s (read_keeps batch_size s h)
        λ ms _. answered ms (gateway.read_pending batch_size s).1 (read_keeps batch_size s h)
    where
      answered : (ms : List OutboxMessage) (t : S) → P t → P (answer gateway publisher ms t).1
      answered [] t k = k
      answered (m ∷ ms) t k =
          let looped = relay_loop-preserves (m ∷ ms) 0 t k in
          >>=-keeps P (relay_loop gateway publisher (m ∷ ms) 0) _ t looped λ n _. looped
