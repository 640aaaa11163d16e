-- ===== src/Webhooks/Delivery.antt =====
-- src/lib/webhook-signature.ts and src/services/webhook-delivery.service.ts. HMAC, `JSON.stringify`,
-- the text of a number and `fetch` belong to libraries: they are a parameter. The clock's readings
-- are arguments, in milliseconds.
use booking_availability_pla.Shared.{
  ℕ, ℤ, ◌-◌, ◌/◌, String, ◌<>◌, Bool, false, Option, none, some, List, [], ◌∷◌, if◌then◌else◌,
}
use booking_availability_pla.Model.{BookingStatus, WebhookEventType}

-- `data` of a webhook's payload: the booking's, or what a test sends.
pub record BookingData : Type 0 where
  pub booking_ref : String
  pub status : BookingStatus
  pub party_size : ℕ
  pub total_price : ℤ
  pub reserved_until : Option ℕ
  pub user_id : ℕ
  pub user_email : String
  pub experience_id : ℕ
  pub experience_title : String
  pub slot_id : ℕ
  pub starts_at : ℕ
  pub ends_at : ℕ

pub data PayloadData : Type 0 where
  booking_data : BookingData → PayloadData
  given_data : List (String × String) → PayloadData

pub record WebhookPayload : Type 0 where
  pub event : WebhookEventType
  pub occurred_at : ℕ
  pub tenant_id : ℕ
  pub content : PayloadData

pub record HttpRequest : Type 0 where
  pub url : String
  pub headers : List (String × String)
  pub raw_body : String

-- What `fetch` ends in: a response with its `ok` and `status`, or an exception, with its message if
-- it is an `Error`.
pub data FetchOutcome : Type 0 where
  responded : Bool → ℕ → FetchOutcome
  thrown : Option String → FetchOutcome

pub record Net : Type 0 where
  pub hmac : String → String → String
  pub number_text : ℕ → String
  pub stringify : WebhookPayload → String
  pub fetch : HttpRequest → FetchOutcome

pub record WebhookTestResult : Type 0 where
  pub delivered : Bool
  pub status_code : Option ℕ
  pub error : Option String
  pub duration_ms : ℕ

module _ (net : Net) where
  open net use {hmac, number_text, stringify, fetch}

  unfoldable pub sign_webhook_payload : String → ℕ → String → String
  sign_webhook_payload secret timestamp raw_body =
      hmac secret (number_text timestamp <> "." <> raw_body)

  unfoldable pub webhook_signature_headers : ℕ → String → String → String → List (String × String)
  webhook_signature_headers now secret raw_body event_id =
      let timestamp = now / 1000 in
      let signature = sign_webhook_payload secret timestamp raw_body in
      ("Content-Type", "application/json")
      ∷ ("User-Agent", "Booking-Availability-Platform/1.0")
      ∷ ("X-Webhook-Id", event_id)
      ∷ ("X-Webhook-Timestamp", number_text timestamp)
      ∷ ("X-Webhook-Signature", "t=" <> number_text timestamp <> ",v1=" <> signature)
      ∷ []

  abbrev pub delivery_result : ℕ → FetchOutcome → WebhookTestResult
  delivery_result duration (responded good status) = record {
    delivered = good;
    status_code = some status;
    error = if good then none else some ("Webhook endpoint returned " <> number_text status);
    duration_ms = duration;
  }
  delivery_result duration (thrown message) = record {
    delivered = false;
    status_code = none;
    error = some (elim message [ none ↦ "Delivery failed" | some m ↦ m ]);
    duration_ms = duration;
  }

  -- The request that goes out, and what the call returns.
  unfoldable pub deliver_webhook :
      ℕ → ℕ → String → String → WebhookPayload → String → HttpRequest × WebhookTestResult
  deliver_webhook started finished url secret payload event_id =
      let raw_body = stringify payload in
      let request : HttpRequest = record {
        url = url;
        headers = webhook_signature_headers started secret raw_body event_id;
        raw_body = raw_body;
      } in
      (request, delivery_result (finished - started) (fetch request))
