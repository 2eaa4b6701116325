-- ===== src/Tests/Deliveries.antt =====
-- Delivery 1 of lead 2 by phone: claimed, sent and accepted.
use digital_real_estate_engi.Common.{
  ℕ, ◌≤◌, ◌≡◌, refl, true, false, Bool, Option, none, some, [], ◌∷◌, ◌&&◌, leb, arith,
}
use digital_real_estate_engi.Common.Text.{codes, same_text}
use digital_real_estate_engi.Common.Sort.{sort_by}
use digital_real_estate_engi.Common.Table.{get, update_where}
use digital_real_estate_engi.Deliveries.Mask.{masked_destination}
use digital_real_estate_engi.Deliveries.Row.{
  pending, delivered, phone, DeliveryChannel, Delivery, DeliveryLease, owns, is_due, returned,
  claimed,
}
use digital_real_estate_engi.Deliveries.Store.{routing, active, Store}
use digital_real_estate_engi.Deliveries.Run.{
  claim_from, validate, start_owned, claim_next_delivery, start_delivery, finish_delivery,
  recover_stale_deliveries,
}
use digital_real_estate_engi.Deliveries.Protocol.Contacts.{IsBounded}
use digital_real_estate_engi.Deliveries.Queue.{Runs, here, next, claims, recovers, starts, finishes}
use digital_real_estate_engi.Deliveries.Queue.Refine.{Moves, step-Moves}
use digital_real_estate_engi.Deliveries.Queue.Total.{Runs-contacts_bounded, Runs-ended_is_final}

abbrev is_digit : ℕ → Bool
is_digit c = leb 48 c && leb c 57

abbrev delivery : Delivery
delivery = record {
  id = 1;
  lead_id = 2;
  provider_assignment_id = 3;
  delivery_key = 11;
  channel = phone;
  destination_reference = masked_destination is_digit (codes "5551234567");
  adapter_name = 6;
  provider_message_id = none;
  status = pending;
  attempt_count = 0;
  max_attempts = 2;
  next_attempt_at = none;
  worker_id = none;
  lease_token = none;
  claimed_at = none;
  heartbeat_at = none;
  lease_expires_at = none;
  last_error_code = none;
  delivered_at = none;
  completed_at = none;
}

abbrev store : Store
store = record {
  deliveries = delivery ∷ [];
  attempts = [];
  leads =
      record { id = 2; property_id = 9; status = routing; provider_assignment_id = some 3 } ∷ [];
  assignments =
      record {
        id = 3;
        status = active;
        destination_email = none;
        destination_phone = some (codes "5551234567");
      }
      ∷ [];
  events = [];
}

abbrev adapters : DeliveryChannel → Option ℕ
adapters channel = some 6

abbrev lease : DeliveryLease
lease = record { delivery_id = 1; worker_id = 5; lease_token = 70 }

abbrev claimed_store : Store
claimed_store = (claim_next_delivery 0 5 (λ i. 70) 50 10 store).0

abbrev sent_store : Store
sent_store = (start_delivery adapters is_digit lease 20 claimed_store).0

abbrev finished_store : Store
finished_store = (finish_delivery 30 900 lease 1 (returned true false 77) 30 sent_store).0

one_contact : Runs 1 store 1 finished_store
unfolding start_delivery get claim_next_delivery claim_from sort_by is_due update_where claimed owns
    start_owned validate same_text masked_destination
one_contact =
    next
      (next (next here (claims 0 5 (λ i. 70) 50 10))
        (starts adapters is_digit lease 20 (λ d found owned. ground (arith, found))))
      (finishes 30 900 lease 1 (returned true false 77) 30)

is_bounded : IsBounded delivery
is_bounded = record { within = omega arith; one_left = λ waits idle. omega arith }

found : get (λ d. d.id) 1 store.deliveries ≡ some delivery
unfolding get
found = refl

Runs-contacts_bounded_example :
    (d' : Delivery) × (get (λ d. d.id) 1 finished_store.deliveries ≡ some d')
    × (d'.attempt_count ≡ 1)
    × (1 ≤ 2)
Runs-contacts_bounded_example =
    Runs-contacts_bounded 1 1 delivery store finished_store (tt, tt) found is_bounded one_contact

step-Moves_example : Moves 1 delivery 0 claimed_store.deliveries
step-Moves_example = step-Moves 1 delivery (tt, tt) found (claims 0 5 (λ i. 70) 50 10)

-- The delivery once it was delivered, under another claim and a recovery.
abbrev delivered_delivery : Delivery
delivered_delivery = record delivery {
  status = delivered;
  attempt_count = 1;
  delivered_at = some 30;
}

abbrev delivered_store : Store
delivered_store = record store { deliveries = delivered_delivery ∷ [] }

abbrev later_store : Store
later_store =
    (recover_stale_deliveries 10 90 (claim_next_delivery 0 6 (λ i. 71) 50 80 delivered_store).0).0

found_delivered : get (λ d. d.id) 1 delivered_store.deliveries ≡ some delivered_delivery
unfolding get
found_delivered = refl

Runs-ended_is_final_example :
    (◌≡◌ {A = ℕ} 0 0) × (get (λ d. d.id) 1 later_store.deliveries ≡ some delivered_delivery)
Runs-ended_is_final_example =
    Runs-ended_is_final 1 0 delivered_delivery delivered_store later_store (tt, tt) found_delivered
      refl (next (next here (claims 0 6 (λ i. 71) 50 80)) (recovers 10 90))
