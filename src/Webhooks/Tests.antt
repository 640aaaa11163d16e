-- ===== src/Webhooks/Tests.antt =====
-- Runs of src/services/booking-webhook.service.ts and src/services/webhook.service.ts.
use booking_availability_pla.Shared.{◌≡◌, ◌<>◌, refl, true, some, Unique}
use booking_availability_pla.Model.{confirmed_event}
use booking_availability_pla.Service.{ok}
use booking_availability_pla.Fixtures.{world, sure_booking, alice, tour, morning}
use booking_availability_pla.Webhooks.Delivery.{
  booking_data, Net, HttpRequest, WebhookTestResult, responded, deliver_webhook,
}
use booking_availability_pla.Webhooks.Registration.{WebhookDraw, register_webhook}
use booking_availability_pla.Webhooks.Dispatch.{
  to_booking_data, dispatch_booking_webhook, send_booking,
}
use booking_availability_pla.Webhooks.Laws.{
  IsRegistered, tenant_key, register_webhook-IsRegistered, register_webhook-Unique,
}
use booking_availability_pla.Webhooks.Sending.{IsDispatch, dispatch_booking_webhook_sound}

abbrev net : Net
net = record {
  hmac = λ secret text. secret <> text;
  number_text = λ n. "n";
  stringify = λ p. "{}";
  fetch = λ r. responded true 200;
}

abbrev sent : HttpRequest × WebhookTestResult
sent =
    deliver_webhook net 5000 5020 "https://acme.test/hook" "s"
      (record {
        event = confirmed_event;
        occurred_at = 5000;
        tenant_id = 1;
        content = booking_data (to_booking_data sure_booking alice tour morning);
      })
      "evt"

dispatched :
    dispatch_booking_webhook net 5000 5020 "evt" 1 confirmed_event 41 world
    ≡ (ok (some sent), world)
unfolding dispatch_booking_webhook send_booking
dispatched = refl

dispatch_booking_webhook_sound_example :
    IsDispatch net 5000 5020 "evt" 1 confirmed_event 41 world sent × (world ≡ world)
dispatch_booking_webhook_sound_example =
    dispatch_booking_webhook_sound net 5000 5020 "evt" 1 confirmed_event 41 world world sent
      dispatched

abbrev draw : WebhookDraw
draw = record { now = 5000; webhook_id = 51; secret = "new" }

register_webhook-IsRegistered_example :
    IsRegistered draw 1 10 "https://acme.test/next" world
      (register_webhook draw 1 10 "https://acme.test/next" world).1
register_webhook-IsRegistered_example =
    register_webhook-IsRegistered draw 1 10 "https://acme.test/next" world

register_webhook-Unique_example :
    Unique tenant_key (register_webhook draw 2 10 "https://b.test/next" world).1.db.webhooks
register_webhook-Unique_example =
    register_webhook-Unique draw 2 10 "https://b.test/next" world (tt, tt)
