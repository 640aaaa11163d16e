-- ===== src/Listing/AuditLogs.antt =====
-- src/services/audit-log.service.ts
use booking_availability_pla.Shared.{
  ℕ, ◌≡◌, String, Bool, true, false, ◌&&◌, Option, none, some, List, map, leb, ltb, ◌==◌, matches?,
  keep, length, same_text, find_first, All, arith, ap,
}
use booking_availability_pla.Model.{
  Db, AuditLog, User, AuditEventType, AuditEntityType, Metadata, json_null, json_leaf, json_array,
  json_object, JsonLeaf, login_event, logout_event, booking_reserved, booking_confirmed,
  booking_cancelled, booking_expired, webhook_created, webhook_updated, webhook_deleted,
  pricing_rule_created, pricing_rule_updated, user_created, user_updated, tenant_entity,
  user_entity, supplier_entity, experience_entity, availability_slot_entity, pricing_rule_entity,
  booking_entity, tenant_webhook_entity,
}
use booking_availability_pla.Service.{Action, ◌>>=◌, gets, pure}
use booking_availability_pla.Dates.{Calendar, end_date_exclusive}
use booking_availability_pla.Listing.Pages.{
  PaginationMeta, pagination, select_page, All-select_page,
}
use booking_availability_pla.Listing.Bookings.{SortOrder, directed}

-- `===` on event types, by their place in the enumeration.
abbrev pub event_rank : AuditEventType → ℕ
event_rank login_event = 0
event_rank logout_event = 1
event_rank booking_reserved = 2
event_rank booking_confirmed = 3
event_rank booking_cancelled = 4
event_rank booking_expired = 5
event_rank webhook_created = 6
event_rank webhook_updated = 7
event_rank webhook_deleted = 8
event_rank pricing_rule_created = 9
event_rank pricing_rule_updated = 10
event_rank user_created = 11
event_rank user_updated = 12

abbrev pub entity_text : AuditEntityType → String
entity_text tenant_entity = "Tenant"
entity_text user_entity = "User"
entity_text supplier_entity = "Supplier"
entity_text experience_entity = "Experience"
entity_text availability_slot_entity = "AvailabilitySlot"
entity_text pricing_rule_entity = "PricingRule"
entity_text booking_entity = "Booking"
entity_text tenant_webhook_entity = "TenantWebhook"

pub record AuditLogListQuery : Type 0 where
  pub event_type : Option AuditEventType
  pub entity_type : Option String
  pub entity_id : Option ℕ
  pub actor_user_id : Option ℕ
  pub from : Option String
  pub to : Option String
  pub sort_order : SortOrder
  pub page : ℕ
  pub page_size : ℕ

-- `toMetadata`: an object, and nothing in place of any other JSON value.
abbrev pub to_metadata : Metadata → Option (List (String × JsonLeaf))
to_metadata json_null = none
to_metadata (json_leaf v) = none
to_metadata (json_array vs) = none
to_metadata (json_object fields) = some fields

-- SQL's equality with a column that may be NULL.
abbrev pub equals? : Option ℕ → ℕ → Bool
equals? none n = false
equals? (some m) n = m == n

equals?_sound : (o : Option ℕ) (n : ℕ) → equals? o n ≡ true → o ≡ some n
equals?_sound none n h = absurd (ground arith)
equals?_sound (some m) n h = ap some (ground arith)

module _ (calendar : Calendar) where
  -- `where`
  abbrev pub audit_where : ℕ → AuditLogListQuery → AuditLog → Bool
  audit_where tenant_id query log =
      equals? log.tenant_id tenant_id
      && matches? (λ e. event_rank log.event_type == event_rank e) query.event_type
      && matches? (λ e. same_text (entity_text log.entity_type) e) query.entity_type
      && matches? (λ e. equals? log.entity_id e) query.entity_id
      && matches? (λ a. equals? log.actor_user_id a) query.actor_user_id
      && matches? (λ d. leb (calendar.parse_utc_date d) log.created_at) query.from
      && matches? (λ d. ltb log.created_at (end_date_exclusive calendar d)) query.to

  unfoldable pub audit_rows : ℕ → AuditLogListQuery → List AuditLog → List AuditLog
  audit_rows tenant_id query logs =
      select_page (audit_where tenant_id query)
        (directed query.sort_order (λ a b. leb a.created_at b.created_at)) query.page
        query.page_size logs

  -- Every entry of a list belongs to the tenant that asked; an entry of no tenant is in no list.
  pub audit_rows-tenant :
      (tenant : ℕ) (query : AuditLogListQuery) (logs : List AuditLog)
      → All (λ log. log.tenant_id ≡ some tenant) (audit_rows tenant query logs)
  unfolding audit_rows
  audit_rows-tenant tenant query logs =
      All-select_page _ (audit_where tenant query) _ query.page query.page_size logs
        (λ log h. equals?_sound log.tenant_id tenant (ground arith))

pub record AuditLogListItem : Type 0 where
  pub event_type : AuditEventType
  pub entity_type : String
  pub entity_id : Option ℕ
  pub actor : Option (ℕ × String)
  pub metadata : Option (List (String × JsonLeaf))
  pub created_at : ℕ

-- The actor's columns, through the relation `actor`.
abbrev pub actor_of : Db → Option ℕ → Option (ℕ × String)
actor_of db none = none
actor_of db (some id) = elim (find_first (λ (u : User). u.id == id) db.users) [
  | none ↦ none
  | some u ↦ some (u.id, u.email)
]

abbrev pub to_audit_log_list_item : Db → AuditLog → AuditLogListItem
to_audit_log_list_item db log = record {
  event_type = log.event_type;
  entity_type = entity_text log.entity_type;
  entity_id = log.entity_id;
  actor = actor_of db log.actor_user_id;
  metadata = to_metadata log.metadata;
  created_at = log.created_at;
}

pub record AuditLogListResult : Type 0 where
  pub items : List AuditLogListItem
  pub page : PaginationMeta

unfoldable pub list_audit_logs : Calendar → ℕ → AuditLogListQuery → Action AuditLogListResult
unfolding audit_rows
list_audit_logs calendar tenant_id query = do
  total_items ← gets (λ db. length (keep (audit_where calendar tenant_id query) db.audit_logs))
  items ←
      gets
        (λ db. map (to_audit_log_list_item db) (audit_rows calendar tenant_id query db.audit_logs))
  pure (record { items = items; page = pagination query.page query.page_size total_items })
