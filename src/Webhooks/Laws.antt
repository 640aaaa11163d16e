-- ===== src/Webhooks/Laws.antt =====
-- What src/services/webhook.service.ts leaves registered.
use booking_availability_pla.Shared.{
  ℕ, ◌≡◌, refl, String, true, Option, none, some, arith, find_first, ◌==◌, Unique, Unique-update,
  Unique-append_new, Absent-of_none, find_first-update, find_first_sound, find_first-new,
}
use booking_availability_pla.Model.{TenantWebhook}
use booking_availability_pla.Service.{World}
use booking_availability_pla.Webhooks.Registration.{
  WebhookDraw, of_tenant, new_webhook, renew_webhook, register_webhook, register_found,
}

abbrev pub tenant_key : TenantWebhook → ℕ
tenant_key h = h.tenant_id

module _ (draw : WebhookDraw) (tenant actor : ℕ) (url : String) (w : World) where
  abbrev pub IsRegistered : World → Type 0
  IsRegistered v =
      (h : TenantWebhook) × (find_first (of_tenant tenant) v.db.webhooks ≡ some h)
      × (h.url ≡ url)
      × (h.secret ≡ draw.secret)
      × (h.active ≡ true)

  ==_refl : (tenant == tenant) ≡ true
  ==_refl = ground arith

  register_found-IsRegistered :
      (o : Option TenantWebhook)
      → find_first (of_tenant tenant) w.db.webhooks ≡ o
      → IsRegistered (register_found draw tenant actor url o w).1
  register_found-IsRegistered none e = (
    new_webhook draw tenant url,
    find_first-new (of_tenant tenant) w.db.webhooks (new_webhook draw tenant url) ==_refl e,
    refl,
    refl,
    refl,
  )
  register_found-IsRegistered (some h) e = (
    renew_webhook url draw.secret h,
    rw (find_first_sound (of_tenant tenant) w.db.webhooks h e) at (
        find_first-update (of_tenant tenant) (of_tenant tenant) (renew_webhook url draw.secret)
          w.db.webhooks h (λ y. refl) e),
    refl,
    refl,
    refl,
  )

  -- After a registration the tenant's webhook is found, active, with the address that was given and
  -- the secret that was drawn, whether there was one before or not.
  pub register_webhook-IsRegistered : IsRegistered (register_webhook draw tenant actor url w).1
  unfolding register_webhook
  register_webhook-IsRegistered = register_found-IsRegistered _ refl

  register_found-Unique :
      (o : Option TenantWebhook)
      → find_first (of_tenant tenant) w.db.webhooks ≡ o
      → Unique tenant_key w.db.webhooks
      → Unique tenant_key (register_found draw tenant actor url o w).1.db.webhooks
  register_found-Unique none e u =
      Unique-append_new tenant_key w.db.webhooks (new_webhook draw tenant url) u
        (Absent-of_none tenant_key tenant (of_tenant tenant) w.db.webhooks (λ x h. ground arith) e)
  register_found-Unique (some h) e u =
      Unique-update tenant_key (of_tenant tenant) (renew_webhook url draw.secret) w.db.webhooks
        (λ x. refl) u

  -- A registration keeps the rule that a tenant has one webhook at most.
  pub register_webhook-Unique :
      Unique tenant_key w.db.webhooks
      → Unique tenant_key (register_webhook draw tenant actor url w).1.db.webhooks
  unfolding register_webhook
  register_webhook-Unique u = register_found-Unique _ refl u
