-- ===== src/Fixtures.antt =====
-- A small database and the parameters of the model as concrete functions, for the tests.
use booking_availability_pla.Shared.{
  same_text, if◌then◌else◌, ℕ, ℤ, pos, negsuc, ◌+◌, ◌-◌, ◌*◌, ◌/◌, ◌^◌, String, true, false, Option,
  none, some, [], ◌∷◌,
}
use booking_availability_pla.Model.{
  UserRole, Db, Tenant, User, Supplier, Experience, AvailabilitySlot, Booking, BookingStatus,
  Decimal, RuleConfig, TenantWebhook, RefreshToken, RefreshTokenFamily, AuditLog, viewer, reserved,
  confirmed, group_size, login_event, user_entity, json_null,
}
use booking_availability_pla.Service.{World}
use booking_availability_pla.Pricing.Numbers.{Numeric}
use booking_availability_pla.Auth.Tokens.{Crypto, claims, invalid}

abbrev pub acme : Tenant
acme = record { id = 1; slug = "acme" }

abbrev pub alice : User
alice = record {
  id = 10;
  tenant_id = 1;
  email = "alice@acme.test";
  password_hash = "secret";
  role = viewer;
  is_active = true;
}

abbrev pub no_config : RuleConfig
no_config = record {
  min_party_size = none;
  days_in_advance = none;
  discount_percent = none;
  season = none;
  months = none;
  surcharge_percent = none;
}

abbrev pub whole : ℕ → Decimal
whole n = record { digits = pos n; places = 0 }

-- Ten per cent off for four guests or more.
abbrev pub group_config : RuleConfig
group_config = record no_config {
  min_party_size = some (whole 4);
  discount_percent = some (whole 10);
}

-- A quarter more in January.
abbrev pub winter_config : RuleConfig
winter_config = record no_config {
  season = some "winter";
  months = some (whole 1 ∷ []);
  surcharge_percent = some (whole 25);
}

abbrev pub guide : Supplier
guide = record { id = 5; tenant_id = 1; name = "Guide"; email = some "guide@acme.test" }

abbrev pub tour : Experience
tour = record {
  id = 20;
  tenant_id = 1;
  supplier_id = 5;
  title = "Tour";
  destination = "Rome";
  description = none;
  base_price = pos 5000;
  capacity = 10;
  active = true;
}

abbrev pub morning : AvailabilitySlot
morning = record {
  id = 30;
  tenant_id = 1;
  experience_id = 20;
  starts_at = 900000000;
  ends_at = 903600000;
  capacity = 10;
  reserved_seats = 5;
  version = 3;
}

abbrev pub booking_of : ℕ → String → ℕ → BookingStatus → Option ℕ → Booking
booking_of id reference party_size status reserved_until = record {
  id = id;
  reference = reference;
  tenant_id = 1;
  user_id = 10;
  experience_id = 20;
  slot_id = 30;
  party_size = party_size;
  total_price = pos 10000;
  status = status;
  reserved_until = reserved_until;
  created_at = 1000;
}

abbrev pub held_booking : Booking
held_booking = booking_of 40 "BK-HELD" 2 reserved (some 5000)

abbrev pub sure_booking : Booking
sure_booking = booking_of 41 "BK-SURE" 3 confirmed none

abbrev pub hook : TenantWebhook
hook = record {
  id = 50;
  tenant_id = 1;
  url = "https://acme.test/hook";
  secret = "s";
  active = true;
  created_at = 1;
}

abbrev pub session : RefreshTokenFamily
session = record { id = 60; user_id = 10; revoked = false }

abbrev pub stored_token : RefreshToken
stored_token = record {
  id = 70;
  family_id = 60;
  token_hash = "t0";
  revoked = false;
  replaced_by_id = none;
  expires_at = 100000;
}

abbrev pub login_log : AuditLog
login_log = record {
  tenant_id = some 1;
  actor_user_id = some 10;
  event_type = login_event;
  entity_type = user_entity;
  entity_id = some 10;
  metadata = json_null;
  created_at = 1000;
}

abbrev pub db : Db
db = record {
  tenants = acme ∷ [];
  users = alice ∷ [];
  families = session ∷ [];
  tokens = stored_token ∷ [];
  suppliers = guide ∷ [];
  rules =
      record {
        id = 80;
        supplier_id = 5;
        rule_type = group_size;
        config = group_config;
        active = true;
      }
      ∷ [];
  experiences = tour ∷ [];
  slots = morning ∷ [];
  bookings = held_booking ∷ sure_booking ∷ [];
  history = [];
  webhooks = hook ∷ [];
  audit_logs = login_log ∷ [];
}

abbrev pub world : World
world = record { db = db; queued = [] }

-- Fixed-point numbers with six places, cut off below; what JavaScript does with amounts below zero
-- is not exercised.
abbrev pub unit : ℕ
unit = 1000000

abbrev pub abs_int : ℤ → ℕ
abs_int (pos n) = n
abs_int (negsuc n) = 0

abbrev pub fixed_point : Numeric
fixed_point = record {
  Num = ℕ;
  of_int = λ n. n * unit;
  of_cents = λ c. abs_int c * 10000;
  of_decimal = λ d. (abs_int d.digits * unit) / 10 ^ d.places;
  neg = λ a. 0;
  add = λ a b. a + b;
  sub = λ a b. a - b;
  mul = λ a b. (a * b) / unit;
  div = λ a b. (a * unit) / b;
  to_fixed = λ a. pos (a / 10000);
  to_text = λ d. "n";
  utc_month = λ t. 1;
}

-- One token verifies, as Alice's in a role; passwords and hashes are texts as they are.
abbrev pub crypto_of : UserRole → Crypto
crypto_of role = record {
  hash_token = λ t. t;
  compare_password = same_text;
  to_lower_case = λ s. s;
  trim = λ s. s;
  sign = λ now p. "jwt";
  verify = λ now t.
      if same_text t "jwt"
      then claims (some 10) (some 1) (some role) (some "alice@acme.test")
      else invalid;
}
