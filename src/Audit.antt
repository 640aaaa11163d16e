-- ===== src/Audit.antt =====
-- src/lib/audit.ts
use booking_availability_pla.Shared.{ℕ, Option, [], ◌∷◌, ◌++◌}
use booking_availability_pla.Model.{AuditLog, Metadata, AuditEventType, AuditEntityType}
use booking_availability_pla.Service.{Action, ◌>>=◌, ◌>>◌, modify, pure, transaction}

pub record AuditContext : Type 0 where
  pub event_type : AuditEventType
  pub tenant_id : Option ℕ
  pub actor_user_id : Option ℕ
  pub entity_type : AuditEntityType
  pub entity_id : Option ℕ
  pub metadata : Metadata

abbrev pub audit_row : ℕ → AuditContext → AuditLog
audit_row now audit = record {
  tenant_id = audit.tenant_id;
  actor_user_id = audit.actor_user_id;
  event_type = audit.event_type;
  entity_type = audit.entity_type;
  entity_id = audit.entity_id;
  metadata = audit.metadata;
  created_at = now;
}

abbrev pub log_audit : ℕ → AuditContext → Action (Unit {0})
log_audit now audit =
    modify λ db. record db { audit_logs = db.audit_logs ++ audit_row now audit ∷ [] }

-- The context is a function of the body's result; a plain context is a constant function.
abbrev pub with_audited_transaction : {A : Type 0} → ℕ → Action A → (A → AuditContext) → Action A
with_audited_transaction now fn audit =
    transaction (do result ← fn; log_audit now (audit result); pure result)
