-- ===== src/Webhooks/Dispatch.antt =====
-- src/services/booking-webhook.service.ts. The result is the request that goes out with what came of
-- it, or nothing where the dispatch is skipped.
use booking_availability_pla.Shared.{ℕ, String, Bool, ◌&&◌, Option, none, some, ◌==◌, find_first}
use booking_availability_pla.Model.{
  Booking, User, Experience, AvailabilitySlot, TenantWebhook, WebhookEventType,
}
use booking_availability_pla.Service.{Action, ◌>>=◌, gets, pure}
use booking_availability_pla.Booking.Views.{or_fault}
use booking_availability_pla.Webhooks.Delivery.{
  Net, HttpRequest, WebhookTestResult, BookingData, booking_data, deliver_webhook,
}
use booking_availability_pla.Webhooks.Registration.{is_active_webhook}

abbrev pub to_booking_data : Booking → User → Experience → AvailabilitySlot → BookingData
to_booking_data b user experience slot = record {
  booking_ref = b.reference;
  status = b.status;
  party_size = b.party_size;
  total_price = b.total_price;
  reserved_until = b.reserved_until;
  user_id = user.id;
  user_email = user.email;
  experience_id = experience.id;
  experience_title = experience.title;
  slot_id = slot.id;
  starts_at = slot.starts_at;
  ends_at = slot.ends_at;
}

abbrev pub in_tenant : ℕ → ℕ → Booking → Bool
in_tenant tenant_id booking_id b = b.id == booking_id && b.tenant_id == tenant_id

module _ (net : Net) (started finished : ℕ) (event_id : String) where
  abbrev pub Sent : Type 0
  Sent = Option (HttpRequest × WebhookTestResult)

  -- With the webhook and the booking found, and the booking's relations included.
  unfoldable pub send_booking : ℕ → WebhookEventType → TenantWebhook → Booking → Action Sent
  send_booking tenant_id event webhook b = do
    u ← gets (λ db. find_first (λ (x : User). x.id == b.user_id) db.users)
    user ← or_fault u
    e ← gets (λ db. find_first (λ (x : Experience). x.id == b.experience_id) db.experiences)
    experience ← or_fault e
    s ← gets (λ db. find_first (λ (x : AvailabilitySlot). x.id == b.slot_id) db.slots)
    slot ← or_fault s
    pure (
        some (
          deliver_webhook net started finished webhook.url webhook.secret
            (record {
              event = event;
              occurred_at = started;
              tenant_id = tenant_id;
              content = booking_data (to_booking_data b user experience slot);
            })
            event_id))

  abbrev pub dispatch_booking : ℕ → WebhookEventType → TenantWebhook → Option Booking → Action Sent
  dispatch_booking tenant_id event webhook none = pure none
  dispatch_booking tenant_id event webhook (some b) = send_booking tenant_id event webhook b

  abbrev pub dispatch_webhook : ℕ → WebhookEventType → ℕ → Option TenantWebhook → Action Sent
  dispatch_webhook tenant_id event booking_id none = pure none
  dispatch_webhook tenant_id event booking_id (some webhook) = do
    booking ← gets (λ db. find_first (in_tenant tenant_id booking_id) db.bookings)
    dispatch_booking tenant_id event webhook booking

  unfoldable pub dispatch_booking_webhook : ℕ → WebhookEventType → ℕ → Action Sent
  dispatch_booking_webhook tenant_id event booking_id = do
    webhook ← gets (λ db. find_first (is_active_webhook tenant_id) db.webhooks)
    dispatch_webhook tenant_id event booking_id webhook
