-- ===== src/Booking/EffectTests.antt =====
-- Reservations, confirmations and cancellations of src/services/booking.service.ts that go through on a
-- small database.
use booking_availability_pla.Shared.{◌≡◌, refl, some, pos, [], ◌∷◌, arith}
use booking_availability_pla.Model.{Booking, reserved}
use booking_availability_pla.Service.{World, ok}
use booking_availability_pla.Booking.Samples.{world-Unique}
use booking_availability_pla.Fixtures.{
  tour, world, held_booking, sure_booking, fixed_point, morning,
}
use booking_availability_pla.Pricing.Configs.{parse_group_size}
use booking_availability_pla.Pricing.Preview.{
  calculate_pricing_preview, apply_rules, apply_by_type, discount,
}
use booking_availability_pla.Booking.State.{assert_transition, is_cancellable}
use booking_availability_pla.Booking.Slots.{
  update_slots, adjust_slot_reserved, append_status_history,
}
use booking_availability_pla.Booking.Views.{BookingSummary, to_booking_summary, update_booking}
use booking_availability_pla.Booking.Reserve.{
  find_slot, create_booking, reserve_seats, commit_reservation, create_reservation,
}
use booking_availability_pla.Booking.Confirm.{
  set_confirmed, check_confirm, write_confirmed, commit_confirm, confirm_reservation,
}
use booking_availability_pla.Booking.Cancel.{
  set_cancelled, check_cancel, write_cancelled, commit_cancel, cancel_reservation,
}
use booking_availability_pla.Booking.Atomic.{IsReservation}
use booking_availability_pla.Shared.{ℕ, ◌+◌, ◌-◌, ◌≤◌, ◌⊎◌, ◌++◌, keep, find_first, not, ◌==◌, none}
use booking_availability_pla.Model.{
  AvailabilitySlot, confirmed, cancelled, confirmed_event, cancelled_event,
}
use booking_availability_pla.Service.{booking_webhook, availability_invalidation}
use booking_availability_pla.Booking.Samples.{draw, four, summary_of}
use booking_availability_pla.Booking.Effects.{
  IsReserved, create_reservation-IsReserved, create_reservation_accepts,
}
use booking_availability_pla.Booking.Updates.{
  IsMoved, confirm_reservation_effect, cancel_reservation_effect,
}

abbrev four_summary : BookingSummary
four_summary = record {
  booking_ref = "BK-NEW";
  status = reserved;
  party_size = 4;
  total_price = pos 18000;
  reserved_until = some 902000;
}

abbrev four_world : World
four_world = (create_reservation fixed_point draw 1 10 four world).1

four_reserved : create_reservation fixed_point draw 1 10 four world ≡ (ok four_summary, four_world)
unfolding create_reservation find_slot commit_reservation reserve_seats adjust_slot_reserved
    update_slots create_booking append_status_history to_booking_summary calculate_pricing_preview
    apply_rules apply_by_type parse_group_size discount
four_reserved = refl

create_reservation-IsReserved_example :
    IsReserved world fixed_point draw 1 10 four four_summary four_world
    × IsReservation world fixed_point draw 1 10 four four_summary four_world
create_reservation-IsReserved_example =
    create_reservation-IsReserved world 1 fixed_point draw 10 four four_summary four_world
      (omega arith) four_reserved

abbrev confirmed_after : World
confirmed_after = (confirm_reservation 2000 1 10 "BK-HELD" world).1

abbrev held_confirmed : BookingSummary
held_confirmed = summary_of (set_confirmed held_booking)

held_confirms : confirm_reservation 2000 1 10 "BK-HELD" world ≡ (ok held_confirmed, confirmed_after)
unfolding confirm_reservation check_confirm assert_transition commit_confirm write_confirmed
    update_booking append_status_history to_booking_summary
held_confirms = refl

confirm_reservation_effect_example :
    (b : Booking) × (b.status ≡ reserved)
    × ((b.reserved_until ≡ none) ⊎ ((t : ℕ) × (b.reserved_until ≡ some t) × (2000 ≤ t)))
    × IsMoved world 1 10 "BK-HELD" confirmed b held_confirmed confirmed_after
    × (confirmed_after.db.slots ≡ world.db.slots)
    × (confirmed_after.db.history
        ≡ world.db.history
          ++ record {
            booking_id = b.id;
            from_status = some b.status;
            to_status = confirmed;
            actor_user_id = some 10;
            reason = none;
            created_at = 2000;
          }
            ∷ [])
    × (confirmed_after.queued ≡ world.queued ++ booking_webhook 1 confirmed_event b.id ∷ [])
confirm_reservation_effect_example =
    confirm_reservation_effect world 1 10 "BK-HELD" world-Unique 2000 held_confirmed confirmed_after
      held_confirms

abbrev cancelled_after : World
cancelled_after = (cancel_reservation 2000 1 10 "BK-SURE" "ill" world).1

abbrev sure_cancelled : BookingSummary
sure_cancelled = summary_of (set_cancelled sure_booking)

sure_cancels :
    cancel_reservation 2000 1 10 "BK-SURE" "ill" world ≡ (ok sure_cancelled, cancelled_after)
unfolding cancel_reservation check_cancel is_cancellable assert_transition commit_cancel
    write_cancelled update_booking adjust_slot_reserved update_slots append_status_history
    to_booking_summary
sure_cancels = refl

cancel_reservation_effect_example :
    (b : Booking) × (slot : AvailabilitySlot) × ((b.status ≡ reserved) ⊎ (b.status ≡ confirmed))
    × IsMoved world 1 10 "BK-SURE" cancelled b sure_cancelled cancelled_after
    × (find_first (λ (x : AvailabilitySlot). x.id == b.slot_id) world.db.slots ≡ some slot)
    × (slot.tenant_id ≡ 1)
    × (b.party_size ≤ slot.reserved_seats)
    × (find_first (λ (x : AvailabilitySlot). x.id == b.slot_id) cancelled_after.db.slots
        ≡ some (record slot {
          reserved_seats = slot.reserved_seats - b.party_size;
          version = slot.version + 1;
        }))
    × (keep (λ (x : AvailabilitySlot). not (x.id == b.slot_id)) cancelled_after.db.slots
        ≡ keep (λ (x : AvailabilitySlot). not (x.id == b.slot_id)) world.db.slots)
    × (cancelled_after.db.history
        ≡ world.db.history
          ++ record {
            booking_id = b.id;
            from_status = some b.status;
            to_status = cancelled;
            actor_user_id = some 10;
            reason = some "ill";
            created_at = 2000;
          }
            ∷ [])
    × (cancelled_after.queued
        ≡ (world.queued ++ booking_webhook 1 cancelled_event b.id ∷ [])
          ++ availability_invalidation 1 ∷ [])
cancel_reservation_effect_example =
    cancel_reservation_effect world 1 10 "BK-SURE" world-Unique 2000 "ill" sure_cancelled
      cancelled_after (tt, tt) sure_cancels

create_reservation_accepts_example :
    (s : BookingSummary) × (w' : World) × (create_reservation fixed_point draw 1 10 four world
      ≡ (ok s, w'))
    × IsReserved world fixed_point draw 1 10 four s w'
create_reservation_accepts_example =
    create_reservation_accepts world 1 fixed_point draw 10 four morning tour refl refl refl
      (omega arith) (omega arith) refl
