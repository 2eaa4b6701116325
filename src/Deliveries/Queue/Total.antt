-- ===== src/Deliveries/Queue/Total.antt =====
-- What no order of the queue's transactions can break.
use digital_real_estate_engi.Common.{
  ℕ, ◌+◌, ◌≤◌, ◌≡◌, ◌∙◌, refl, ap, Bool, false, Option, some, List, map, ◌&&◌, ◌==◌, any, arith,
  Bool-cases, inl, inr, Option-cases,
}
use mathlib.Core.Path.{subst}
use digital_real_estate_engi.Common.Result.{Result-cases}
use digital_real_estate_engi.Common.Table.{get, touch, update_where, IsKeyed, IsKeyed-map}
use digital_real_estate_engi.Deliveries.Row.{
  DeliveryChannel, is_nonterminal, Delivery, DeliveryLease, owns, begun, beaten, failed_with,
  settled, AdapterOutcome,
}
use digital_real_estate_engi.Deliveries.Store.{Store}
use digital_real_estate_engi.Deliveries.Run.{
  claim_next_delivery, due_ids, validate, start_owned, start_delivery, finish_owned,
  finish_delivery, heartbeat_delivery, is_attempt,
}
use digital_real_estate_engi.Deliveries.Writes.{
  write_and_refresh-deliveries, claim_from-IsKeyed, recover_stale_deliveries-IsKeyed,
}
use digital_real_estate_engi.Deliveries.Protocol.{Reach, here, next}
use digital_real_estate_engi.Deliveries.Protocol.Contacts.{
  IsBounded, contacts_bounded, ended_is_final,
}
use digital_real_estate_engi.Deliveries.Queue.{
  QueueStep, claims, recovers, starts, finishes, beats, Runs, here, next,
}
use digital_real_estate_engi.Deliveries.Queue.Refine.{settled-id, Moves, step-Moves}

abbrev HasKeys : Store → Type 0
HasKeys store = IsKeyed (λ d. d.id) store.deliveries

module _ (store : Store) (keyed : HasKeys store) where
  written-HasKeys :
      (d : Delivery) (f : Delivery → Delivery) (rows : List Delivery)
      → ((x : Delivery) → (f x).id ≡ x.id)
      → rows ≡ map (touch (λ x. x.id == d.id) f) store.deliveries
      → IsKeyed (λ d. d.id) rows
  written-HasKeys d f rows same writes = rw writes (
      IsKeyed-map (λ d. d.id) (touch (λ x. x.id == d.id) f) (λ x. ground (arith, same x))
        store.deliveries keyed)

  start_owned-HasKeys :
      (adapters : DeliveryChannel → Option ℕ) (is_digit : ℕ → Bool) (d : Delivery) (now : ℕ)
      → HasKeys (start_owned adapters is_digit d now store).0
  unfolding start_owned begun failed_with
  start_owned-HasKeys adapters is_digit d now =
      elim (Result-cases (
        validate adapters is_digit d (get (λ l. l.id) d.lead_id store.leads)
          (get (λ a. a.id) d.provider_assignment_id store.assignments))) [
            | inl (code, failed) ↦
                rw (failed, start_owned)
                  (written-HasKeys d (failed_with code now) _ (λ x. refl)
                    (write_and_refresh-deliveries d (failed_with code now) now store))
            | inr (request, passes) ↦
                rw (passes, start_owned) (written-HasKeys d begun _ (λ x. refl) refl)
          ]

  start-HasKeys :
      (adapters : DeliveryChannel → Option ℕ) (is_digit : ℕ → Bool) (lease : DeliveryLease)
      (now : ℕ)
      → HasKeys (start_delivery adapters is_digit lease now store).0
  unfolding start_delivery
  start-HasKeys adapters is_digit lease now =
      elim (Option-cases (get (λ d. d.id) lease.delivery_id store.deliveries)) [
        | inl absent ↦ rw (absent, start_delivery) keyed
        | inr (d, found) ↦ elim (Bool-cases (owns d lease)) [
          | inr lost ↦ rw (found, lost, start_delivery) keyed
          | inl owned ↦
              rw (found, owned, start_delivery) (start_owned-HasKeys adapters is_digit d now)
        ]
      ]

  module _ (base maximum attempt_number : ℕ) (outcome : AdapterOutcome) (at : ℕ) where
    finish_owned-HasKeys :
        (d : Delivery) → HasKeys (finish_owned base maximum attempt_number outcome at d store).0
    unfolding finish_owned
    finish_owned-HasKeys d =
        elim (Bool-cases (any (is_attempt d.delivery_key attempt_number) store.attempts)) [
          | inr missing ↦ rw (missing, finish_owned) keyed
          | inl stored ↦
              rw (stored, finish_owned)
                (written-HasKeys d (settled base maximum at outcome) _
                  (settled-id base maximum at outcome)
                  (write_and_refresh-deliveries d (settled base maximum at outcome) at _))
        ]

    finish-HasKeys :
        (lease : DeliveryLease)
        → HasKeys (finish_delivery base maximum lease attempt_number outcome at store).0
    unfolding finish_delivery
    finish-HasKeys lease =
        elim (Option-cases (get (λ d. d.id) lease.delivery_id store.deliveries)) [
          | inl absent ↦ rw (absent, finish_delivery) keyed
          | inr (d, found) ↦ elim (Bool-cases (owns d lease)) [
            | inr lost ↦ rw (found, lost, finish_delivery) keyed
            | inl owned ↦ rw (found, owned, finish_delivery) (finish_owned-HasKeys d)
          ]
        ]

  beat-HasKeys :
      (lease_time : ℕ) (lease : DeliveryLease) (now : ℕ)
      → HasKeys (heartbeat_delivery lease_time lease now store).0
  unfolding heartbeat_delivery update_where beaten
  beat-HasKeys lease_time lease now =
      IsKeyed-map (λ d. d.id)
        (touch (λ d. d.id == lease.delivery_id && owns d lease) (beaten lease_time now))
        (λ x. ground arith) store.deliveries keyed

-- Every transaction keeps the ids of the deliveries distinct.
step-HasKeys :
    {store after : Store} {c : Option ℕ} → HasKeys store → QueueStep store c after → HasKeys after
unfolding claim_next_delivery
step-HasKeys {store} keyed (claims null_rank worker_id token lease_time now) =
    claim_from-IsKeyed worker_id token lease_time now (due_ids null_rank now store.deliveries)
      store.deliveries keyed
step-HasKeys {store} keyed (recovers stale_after now) =
    recover_stale_deliveries-IsKeyed stale_after now store keyed
step-HasKeys {store} keyed (starts adapters is_digit lease now first) =
    start-HasKeys store keyed adapters is_digit lease now
step-HasKeys {store} keyed (finishes base maximum lease attempt_number outcome at) =
    finish-HasKeys store keyed base maximum attempt_number outcome at lease
step-HasKeys {store} keyed (beats lease_time lease now) =
    beat-HasKeys store keyed lease_time lease now

Reach-append :
    (d middle after : Delivery) (n : ℕ) {m : ℕ}
    → Reach d n middle
    → Reach middle m after
    → Reach d (m + n) after
Reach-append d middle _ n path here = subst (λ k. Reach d k middle) (omega arith) path
Reach-append d middle after n path (next {n = a} {m = b} {middle = late} rest last) =
    subst (λ k. Reach d k after) (omega arith) (next (Reach-append d middle late n path rest) last)

-- A run of the queue, as one delivery of the table lives through it.
pub Runs-Moves :
    (j : ℕ) (d : Delivery) (store : Store) {n : ℕ} {after : Store}
    → HasKeys store
    → get (λ d. d.id) j store.deliveries ≡ some d
    → Runs j store n after
    → Moves j d n after.deliveries × HasKeys after
Runs-Moves j d store keyed found here = ((d, found, here), keyed)
Runs-Moves j d store keyed found (next {n} {c} path last) =
    let (so_far, keyed') = Runs-Moves j d store keyed found path in
    let (d', found', lived) = so_far in
    let (d'', found'', moved) = step-Moves j d' keyed' found' last in
    ((d'', found'', Reach-append d d' d'' n lived moved), step-HasKeys keyed' last)

-- However many workers claim, run, lose, recover and finish deliveries, in any order of their
-- transactions: the provider of a delivery is contacted at most as often as the delivery has attempts
-- left, and its row counts every contact. Each worker runs a lease of its own once, the ids of the
-- table are distinct, and the delivery starts within its allowance, with one attempt left while its
-- adapter may still be called.
pub Runs-contacts_bounded :
    (j n : ℕ) (d : Delivery) (store after : Store)
    → HasKeys store
    → get (λ d. d.id) j store.deliveries ≡ some d
    → IsBounded d
    → Runs j store n after
    → (d' : Delivery) × (get (λ d. d.id) j after.deliveries ≡ some d')
      × (d'.attempt_count ≡ d.attempt_count + n)
      × (d.attempt_count + n ≤ d.max_attempts)
Runs-contacts_bounded j n d store after keyed found bounded run =
    let (d', found', lived) = (Runs-Moves j d store keyed found run).0 in
    let (counted, within) = contacts_bounded d d' n bounded lived in (d', found', counted, within)

-- However the transactions of the workers interleave, the row of a delivery that was delivered, has
-- failed, was cancelled or is of unknown outcome stays as it is and its provider is not contacted
-- again. Each worker runs a lease of its own once, and the ids of the table are distinct.
pub Runs-ended_is_final :
    (j n : ℕ) (d : Delivery) (store after : Store)
    → HasKeys store
    → get (λ d. d.id) j store.deliveries ≡ some d
    → is_nonterminal d.status ≡ false
    → Runs j store n after
    → (n ≡ 0) × (get (λ d. d.id) j after.deliveries ≡ some d)
Runs-ended_is_final j n d store after keyed found ended run =
    let (d', found', lived) = (Runs-Moves j d store keyed found run).0 in
    let (quiet, same) = ended_is_final d d' n ended lived in (quiet, found' ∙ ap some same)
