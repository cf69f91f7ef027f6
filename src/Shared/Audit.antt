-- ===== src/Shared/Audit.antt =====
-- backend/src/audit.rs: the row that `AuditWriter::write` inserts. Its JSON detail and its time are
-- left out: no operation reads them back.
use ubedtech.Prelude.{ℕ, String}

pub record AuditEvent : Type 0 where
  pub institution_id : ℕ
  pub actor_user_id : ℕ
  pub action : String
  pub resource_type : String
  pub resource_id : ℕ
