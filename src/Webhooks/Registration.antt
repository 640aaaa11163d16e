-- ===== src/Webhooks/Registration.antt =====
-- src/services/webhook.service.ts. The secret, the identifiers and the clock's readings are arguments.
use booking_availability_pla.Shared.{
  ℕ, String, Bool, true, false, ◌&&◌, Option, none, some, List, [], ◌∷◌, ◌++◌, ◌==◌, find_first,
  update_where,
}
use booking_availability_pla.Errors.{not_found_error}
use booking_availability_pla.Model.{
  TenantWebhook, AuditEventType, webhook_created, webhook_updated, tenant_webhook_entity,
  test_event, json_object, text,
}
use booking_availability_pla.Service.{Action, ◌>>=◌, ◌>>◌, gets, modify, or_throw, pure}
use booking_availability_pla.Audit.{AuditContext, with_audited_transaction}
use booking_availability_pla.Webhooks.Delivery.{
  Net, HttpRequest, WebhookTestResult, given_data, deliver_webhook,
}

pub record WebhookRegistrationResult : Type 0 where
  pub id : ℕ
  pub url : String
  pub secret : String
  pub active : Bool
  pub created_at : ℕ
  pub created : Bool

abbrev pub to_registration_result : TenantWebhook → Bool → WebhookRegistrationResult
to_registration_result webhook created = record {
  id = webhook.id;
  url = webhook.url;
  secret = webhook.secret;
  active = webhook.active;
  created_at = webhook.created_at;
  created = created;
}

-- What `registerWebhook` draws: the time, the identifier of a new row, and
-- `generateWebhookSecret()`.
pub record WebhookDraw : Type 0 where
  pub now : ℕ
  pub webhook_id : ℕ
  pub secret : String

abbrev pub of_tenant : ℕ → TenantWebhook → Bool
of_tenant tenant_id h = h.tenant_id == tenant_id

abbrev pub webhook_audit : AuditEventType → ℕ → ℕ → ℕ → String → AuditContext
webhook_audit event_type tenant_id actor_user_id webhook_id url = record {
  event_type = event_type;
  tenant_id = some tenant_id;
  actor_user_id = some actor_user_id;
  entity_type = tenant_webhook_entity;
  entity_id = some webhook_id;
  metadata = json_object (("url", text url) ∷ []);
}

abbrev pub renew_webhook : String → String → TenantWebhook → TenantWebhook
renew_webhook url secret h = record h { url = url; secret = secret; active = true }

abbrev pub new_webhook : WebhookDraw → ℕ → String → TenantWebhook
new_webhook draw tenant_id url = record {
  id = draw.webhook_id;
  tenant_id = tenant_id;
  url = url;
  secret = draw.secret;
  active = true;
  created_at = draw.now;
}

-- The `update` by the unique `tenantId`, and the `create`.
abbrev pub write_renewed : WebhookDraw → ℕ → String → TenantWebhook → Action TenantWebhook
write_renewed draw tenant_id url existing = do
  modify (λ db. record db {
    webhooks = update_where (of_tenant tenant_id) (renew_webhook url draw.secret) db.webhooks;
  })
  pure (renew_webhook url draw.secret existing)

abbrev pub write_created : WebhookDraw → ℕ → String → Action TenantWebhook
write_created draw tenant_id url = do
  modify (λ db. record db { webhooks = db.webhooks ++ new_webhook draw tenant_id url ∷ [] })
  pure (new_webhook draw tenant_id url)

abbrev pub register_found :
    WebhookDraw → ℕ → ℕ → String → Option TenantWebhook → Action WebhookRegistrationResult
register_found draw tenant_id actor_user_id url (some existing) = do
  updated ←
      with_audited_transaction draw.now (write_renewed draw tenant_id url existing)
        (λ _. webhook_audit webhook_updated tenant_id actor_user_id existing.id url)
  pure (to_registration_result updated false)
register_found draw tenant_id actor_user_id url none = do
  created ←
      with_audited_transaction draw.now (write_created draw tenant_id url)
        (λ webhook. webhook_audit webhook_created tenant_id actor_user_id webhook.id url)
  pure (to_registration_result created true)

unfoldable pub register_webhook : WebhookDraw → ℕ → ℕ → String → Action WebhookRegistrationResult
register_webhook draw tenant_id actor_user_id url = do
  existing ← gets (λ db. find_first (of_tenant tenant_id) db.webhooks)
  register_found draw tenant_id actor_user_id url existing

abbrev pub is_active_webhook : ℕ → TenantWebhook → Bool
is_active_webhook tenant_id h = h.tenant_id == tenant_id && h.active

abbrev pub default_test_data : List (String × String)
default_test_data = ("message", "This is a test event from Booking Availability Platform") ∷ []

module _ (net : Net) where
  -- The request that goes out, and the result.
  unfoldable pub send_test_webhook :
      ℕ
      → ℕ
      → String
      → ℕ
      → Option (List (String × String))
      → Action (HttpRequest × WebhookTestResult)
  send_test_webhook started finished event_id tenant_id content = do
    found ← gets (λ db. find_first (is_active_webhook tenant_id) db.webhooks)
    webhook ← or_throw found (not_found_error "No webhook registered for this tenant")
    pure (
        deliver_webhook net started finished webhook.url webhook.secret
          (record {
            event = test_event;
            occurred_at = started;
            tenant_id = tenant_id;
            content = given_data (elim content [ none ↦ default_test_data | some d ↦ d ]);
          })
          event_id)
