-- ===== src/Webhooks/Sending.antt =====
-- What src/services/booking-webhook.service.ts sends, and to whom.
use booking_availability_pla.Shared.{
  ap, subst, ◌/◌, ◌<>◌, ℕ, ◌≡◌, ◌∙◌, refl, String, true, Option, none, some, [], ◌∷◌, arith,
  find_first, ◌==◌, find_first_sound, some-injective,
}
use booking_availability_pla.Model.{
  Booking, User, Experience, AvailabilitySlot, TenantWebhook, WebhookEventType,
}
use booking_availability_pla.Service.{World, Result, ok, follow-eq-ok, ok-injective}
use booking_availability_pla.Booking.Views.{or_fault, or_fault-eq-ok}
use booking_availability_pla.Webhooks.Delivery.{
  webhook_signature_headers, sign_webhook_payload, Net, HttpRequest, WebhookTestResult,
  booking_data, deliver_webhook,
}
use booking_availability_pla.Webhooks.Registration.{is_active_webhook}
use booking_availability_pla.Webhooks.Dispatch.{
  send_booking, in_tenant, to_booking_data, dispatch_booking_webhook, dispatch_webhook,
  dispatch_booking,
}

skipped :
    {A : Type 0} (w w' : World) (y : A)
    → ¬ (◌≡◌ {A = Result (Option A) × World} (ok none, w) (ok (some y), w'))
skipped w w' y e = ground arith

module _ (net : Net) (started finished : ℕ) (event_id : String) where
  -- What is known of a dispatch that sent a request.
  pub record IsDispatch (tenant : ℕ) (event : WebhookEventType) (booking_id : ℕ) (w : World)
      (sent : HttpRequest × WebhookTestResult) : Type 0 where
    pub webhook : TenantWebhook
    pub booking : Booking
    pub user : User
    pub experience : Experience
    pub slot : AvailabilitySlot
    pub of_webhook : find_first (is_active_webhook tenant) w.db.webhooks ≡ some webhook
    pub webhook_tenant : webhook.tenant_id ≡ tenant
    pub webhook_active : webhook.active ≡ true
    pub of_booking : find_first (in_tenant tenant booking_id) w.db.bookings ≡ some booking
    pub booking_same : booking.id ≡ booking_id
    pub booking_tenant : booking.tenant_id ≡ tenant
    pub of_user : find_first (λ (x : User). x.id == booking.user_id) w.db.users ≡ some user
    pub of_experience :
        find_first (λ (x : Experience). x.id == booking.experience_id) w.db.experiences
        ≡ some experience
    pub of_slot :
        find_first (λ (x : AvailabilitySlot). x.id == booking.slot_id) w.db.slots ≡ some slot
    pub to_url : sent.0.url ≡ webhook.url
    pub body :
        sent.0.raw_body
        ≡ net.stringify (record {
          event = event;
          occurred_at = started;
          tenant_id = tenant;
          content = booking_data (record {
            booking_ref = booking.reference;
            status = booking.status;
            party_size = booking.party_size;
            total_price = booking.total_price;
            reserved_until = booking.reserved_until;
            user_id = user.id;
            user_email = user.email;
            experience_id = experience.id;
            experience_title = experience.title;
            slot_id = slot.id;
            starts_at = slot.starts_at;
            ends_at = slot.ends_at;
          });
        })
    pub headers :
        sent.0.headers
        ≡ ("Content-Type", "application/json")
          ∷ ("User-Agent", "Booking-Availability-Platform/1.0")
          ∷ ("X-Webhook-Id", event_id)
          ∷ ("X-Webhook-Timestamp", net.number_text (started / 1000))
          ∷ (
            "X-Webhook-Signature",
            "t="
                <> net.number_text (started / 1000)
                <> ",v1="
                <> net.hmac webhook.secret
                    (net.number_text (started / 1000) <> "." <> sent.0.raw_body),
          )
          ∷ []
    pub delivery :
        sent
        ≡ deliver_webhook net started finished webhook.url webhook.secret
            (record {
              event = event;
              occurred_at = started;
              tenant_id = tenant;
              content = booking_data (to_booking_data booking user experience slot);
            })
            event_id

  webhook_of :
      (tenant : ℕ) (h : TenantWebhook)
      → is_active_webhook tenant h ≡ true
      → (h.tenant_id ≡ tenant) × (h.active ≡ true)
  webhook_of tenant h t = ground arith

  booking_of :
      (tenant id : ℕ) (b : Booking)
      → in_tenant tenant id b ≡ true
      → (b.id ≡ id) × (b.tenant_id ≡ tenant)
  booking_of tenant id b t = ground arith

  sent_booking_sound :
      (tenant : ℕ) (event : WebhookEventType) (id : ℕ) (w w' : World)
      (sent : HttpRequest × WebhookTestResult) (h : TenantWebhook) (b : Booking)
      → find_first (is_active_webhook tenant) w.db.webhooks ≡ some h
      → find_first (in_tenant tenant id) w.db.bookings ≡ some b
      → send_booking net started finished event_id tenant event h b w ≡ (ok (some sent), w')
      → IsDispatch tenant event id w sent × (w' ≡ w)
  unfolding send_booking deliver_webhook webhook_signature_headers sign_webhook_payload
  sent_booking_sound tenant event id w w' sent h b a found e =
      let (user, v, u, rest) =
        follow-eq-ok _ (or_fault (find_first (λ (x : User). x.id == b.user_id) w.db.users) w)
          (some sent) w' e in
      let (experience, v', x, more) =
        follow-eq-ok _
          (or_fault (find_first (λ (x : Experience). x.id == b.experience_id) v.db.experiences) v)
          (some sent) w' rest in
      let (slot, v'', s, last) =
        follow-eq-ok _
          (or_fault (find_first (λ (s : AvailabilitySlot). s.id == b.slot_id) v'.db.slots) v')
          (some sent) w' more in
      let (same, unchanged) = ok-injective _ (some sent) v'' w' last in
      let (u_found, s1) = or_fault-eq-ok _ user w v u in
      let (x_found, s2) = or_fault-eq-ok _ experience v v' x in
      let (s_found, s3) = or_fault-eq-ok _ slot v' v'' s in
      let request = some-injective sent _ same in
      let (own, active) = webhook_of tenant h (find_first_sound _ w.db.webhooks h a) in
      let (id_same, in_own) = booking_of tenant id b (find_first_sound _ w.db.bookings b found) in
      (
        record {
          webhook = h;
          booking = b;
          user = user;
          experience = experience;
          slot = slot;
          of_webhook = a;
          webhook_tenant = own;
          webhook_active = active;
          of_booking = found;
          booking_same = id_same;
          booking_tenant = in_own;
          of_user = u_found;
          of_experience =
              subst
                (λ (y : World).
                  find_first (λ (x : Experience). x.id == b.experience_id) y.db.experiences
                  ≡ some experience)
                s1 x_found;
          of_slot =
              subst
                (λ (y : World).
                  find_first (λ (s : AvailabilitySlot). s.id == b.slot_id) y.db.slots ≡ some slot)
                (s2 ∙ s1) s_found;
          to_url = ap (λ (r : HttpRequest × WebhookTestResult). r.0.url) request;
          body = ap (λ (r : HttpRequest × WebhookTestResult). r.0.raw_body) request;
          headers = rw request refl;
          delivery = request;
        },
        unchanged ∙ s3 ∙ s2 ∙ s1,
      )

  dispatch_booking_lem :
      (tenant : ℕ) (event : WebhookEventType) (id : ℕ) (w w' : World)
      (sent : HttpRequest × WebhookTestResult) (h : TenantWebhook) (o : Option Booking)
      → find_first (is_active_webhook tenant) w.db.webhooks ≡ some h
      → find_first (in_tenant tenant id) w.db.bookings ≡ o
      → dispatch_booking net started finished event_id tenant event h o w ≡ (ok (some sent), w')
      → IsDispatch tenant event id w sent × (w' ≡ w)
  dispatch_booking_lem tenant event id w w' sent h none a found e = absurd (skipped w w' sent e)
  dispatch_booking_lem tenant event id w w' sent h (some b) a found e =
      sent_booking_sound tenant event id w w' sent h b a found e

  dispatch_webhook_lem :
      (tenant : ℕ) (event : WebhookEventType) (id : ℕ) (w w' : World)
      (sent : HttpRequest × WebhookTestResult) (o : Option TenantWebhook)
      → find_first (is_active_webhook tenant) w.db.webhooks ≡ o
      → dispatch_webhook net started finished event_id tenant event id o w ≡ (ok (some sent), w')
      → IsDispatch tenant event id w sent × (w' ≡ w)
  dispatch_webhook_lem tenant event id w w' sent none a e = absurd (skipped w w' sent e)
  dispatch_webhook_lem tenant event id w w' sent (some h) a e =
      dispatch_booking_lem tenant event id w w' sent h _ a refl e

  -- A dispatch that sends a request posts it to the address of an active webhook of the tenant. The body is the
  -- text of the tenant's booking with that identifier, with its user, its experience and its slot; the
  -- headers carry the time in seconds and the HMAC of time and body under that webhook's secret. Nothing
  -- is changed in the database or the queue.
  pub dispatch_booking_webhook_sound :
      (tenant : ℕ) (event : WebhookEventType) (id : ℕ) (w w' : World)
      (sent : HttpRequest × WebhookTestResult)
      → dispatch_booking_webhook net started finished event_id tenant event id w
        ≡ (ok (some sent), w')
      → IsDispatch tenant event id w sent × (w' ≡ w)
  unfolding dispatch_booking_webhook
  dispatch_booking_webhook_sound tenant event id w w' sent e =
      dispatch_webhook_lem tenant event id w w' sent _ refl e
