-- ===== src/Database/Outbox.antt =====
-- infrastructure/adapters/persistence/sqlalchemy_outbox_gateway.py, with OutboxRecord of
-- infrastructure/persistence/models/outbox.py.
use answer_service.Base.{ℕ, Bool, true, false, Option, none, some, map, nat_eq, nat_beq}
use answer_service.Base.Text.{Text}
use answer_service.Errors.{ok, result_map}
use answer_service.Application.Ports.{Environment, OutboxMessage, OutboxGateway}
use answer_service.Database.Session.{Table, attempt, or_repo_error}

pub record OutboxRecord : Type 0 where
  pub id : ℕ
  pub event_type : Text
  pub payload : Text
  pub created_at : ℕ
  pub processed_at : Option ℕ

abbrev pub to_record : OutboxMessage → OutboxRecord
to_record message = record {
  id = message.id;
  event_type = message.event_type;
  payload = message.payload;
  created_at = message.created_at;
  processed_at = message.processed_at;
}

abbrev pub to_message : OutboxRecord → OutboxMessage
to_message r = record {
  id = r.id;
  event_type = r.event_type;
  payload = r.payload;
  created_at = r.created_at;
  processed_at = r.processed_at;
}

-- `processed_at.is_(None)`
abbrev pub is_pending : OutboxRecord → Bool
is_pending r = elim r.processed_at [ none ↦ true | some moment ↦ false ]

abbrev pub mark : (now : ℕ) → OutboxRecord → OutboxRecord
mark now r = record r { processed_at = some now }

module _ {S : Type 0} (env : Environment S) (table : Table S OutboxRecord) where
  -- SqlAlchemyOutboxGateway
  unfoldable pub sql_outbox_gateway : OutboxGateway S
  sql_outbox_gateway = record {
    add = λ message s. (ok tt, table.add (to_record message) s);
    read_pending = λ limit s.
        let (found, t) = table.select_first is_pending (λ r. some r.created_at) limit s in
        (result_map (map to_message) (or_repo_error found), t);
    mark_processed = λ message_id s.
        let (now, t) = env.now s in
        attempt (table.update_where (λ r. nat_beq r.id message_id) (mark now)) t;
  }
