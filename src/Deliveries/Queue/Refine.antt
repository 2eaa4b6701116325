-- ===== src/Deliveries/Queue/Refine.antt =====
-- Every transaction of the queue moves each row as the life of one delivery allows.
use digital_real_estate_engi.Common.{
  ℕ, ◌-◌, ◌≡◌, ◌∙◌, sym, inl, inr, refl, ap, Bool, true, false, Option, some, List, map, ◌&&◌, ◌==◌,
  if◌then◌else◌, any, arith, Bool-cases, Option-cases, eq_of_==,
}
use mathlib.Core.Path.{subst}
use digital_real_estate_engi.Common.Result.{Result-cases}
use digital_real_estate_engi.Common.Table.{
  get, touch, update_where, get-touch, get-touch_key, key-get, IsKeyed,
}
use digital_real_estate_engi.Deliveries.Row.{
  DeliveryChannel, Delivery, DeliveryLease, owns, is_delivering, begun, beaten, claimed,
  failed_with, retried_or_failed, accepted, settled, is_stale, recovered, AdapterOutcome,
}
use digital_real_estate_engi.Deliveries.Store.{Store}
use digital_real_estate_engi.Deliveries.Run.{
  claim_next_delivery, due_ids, recover_stale_deliveries, validate, write_and_refresh, start_owned,
  start_delivery, finish_owned, finish_delivery, heartbeat_delivery, is_attempt,
}
use digital_real_estate_engi.Deliveries.Writes.{
  write_and_refresh-deliveries, claim_from-row, recover_stale_deliveries-get,
}
use digital_real_estate_engi.Deliveries.Protocol.{
  Step, claim, recover, begin, refuse, settle, beat, Reach, here, next,
}
use digital_real_estate_engi.Deliveries.Queue.{
  contacted, IsFirstRun, QueueStep, claims, recovers, starts, finishes, beats, contacts_of,
}

-- Row `j`, once `d`, has moved with `n` contacts.
abbrev pub Moves : ℕ → Delivery → ℕ → List Delivery → Type 0
Moves j d n rows = (d' : Delivery) × (get (λ d. d.id) j rows ≡ some d') × Reach d n d'

Moves-same :
    (j : ℕ) (d : Delivery) (rows : List Delivery)
    → get (λ d. d.id) j rows ≡ some d
    → Moves j d 0 rows
Moves-same j d rows found = (d, found, here)

some_inj : {a b : Delivery} → some a ≡ some b → a ≡ b
some_inj h = cc

-- One write of a row by its key.
write-Moves :
    (f : Delivery → Delivery) (same : (x : Delivery) → (f x).id ≡ x.id) (k j n : ℕ)
    (dk d : Delivery) (rows : List Delivery)
    → get (λ d. d.id) k rows ≡ some dk
    → get (λ d. d.id) j rows ≡ some d
    → Step dk n (f dk)
    → Moves j d (if k == j then n else 0) (map (touch (λ x. x.id == k) f) rows)
write-Moves f same k j n dk d rows found_k found step = elim (Bool-cases (k == j)) [
  | inl is ↦
      let key : k ≡ j = eq_of_== _ _ is in
      let one : dk ≡ d = some_inj (sym found_k ∙ ap (λ i. get (λ d. d.id) i rows) key ∙ found) in
      rw is (
        f d,
        ground (arith, get-touch_key (λ d. d.id) f same k j rows, found, key),
        subst (λ m. Reach d m (f d)) (omega arith)
            (next here (subst (λ x. Step x n (f x)) one step)),
      )
  | inr other ↦
      rw other (d, ground (arith, get-touch_key (λ d. d.id) f same k j rows, found, other), here)
]

pub settled-id :
    (base maximum at : ℕ) (outcome : AdapterOutcome) (d : Delivery)
    → (settled base maximum at outcome d).id ≡ d.id
unfolding settled retried_or_failed failed_with accepted
settled-id base maximum at outcome d = ground arith

module _ (j : ℕ) (d : Delivery) (store : Store)
    (found : get (λ d. d.id) j store.deliveries ≡ some d) where
  claims-Moves :
      (null_rank worker_id : ℕ) (token : ℕ → ℕ) (lease_time now : ℕ)
      → Moves j d 0
          (claim_next_delivery null_rank worker_id token lease_time now store).0.deliveries
  unfolding claim_next_delivery
  claims-Moves null_rank worker_id token lease_time now =
      elim (claim_from-row worker_id token lease_time now (due_ids null_rank now store.deliveries) j
        store.deliveries) [
          | inl same ↦ (d, same ∙ found, here)
          | inr (d0, t, at, due, after) ↦
              let one : d0 ≡ d = some_inj (sym at ∙ found) in
              (
                _,
                after,
                subst (λ x. Reach x 0 (claimed worker_id t lease_time now d0)) one
                    (next here (claim worker_id t lease_time now due)),
              )
        ]

  recovers-Moves :
      (stale_after now : ℕ)
      → IsKeyed (λ d. d.id) store.deliveries
      → Moves j d 0 (recover_stale_deliveries stale_after now store).0.deliveries
  recovers-Moves stale_after now keyed =
      let seen = recover_stale_deliveries-get stale_after now j store keyed in
      elim (Bool-cases (is_stale (now - stale_after) now d)) [
        | inl stale ↦ (
          recovered now d,
          ground (arith, seen, found, stale),
          next here (recover (now - stale_after) now stale),
        )
        | inr other ↦ (d, ground (arith, seen, found, other), here)
      ]

  -- A transaction on the row that a lease names.
  module _ (lease : DeliveryLease) (dk : Delivery)
      (found_k : get (λ d. d.id) lease.delivery_id store.deliveries ≡ some dk)
      (owned : owns dk lease ≡ true) where
    written-Moves :
        (f : Delivery → Delivery) (n : ℕ) (rows : List Delivery)
        → ((x : Delivery) → (f x).id ≡ x.id)
        → rows ≡ map (touch (λ x. x.id == dk.id) f) store.deliveries
        → Step dk n (f dk)
        → Moves j d (if lease.delivery_id == j then n else 0) rows
    written-Moves f n rows same writes step =
        let key : dk.id ≡ lease.delivery_id =
          key-get (λ d. d.id) lease.delivery_id store.deliveries dk found_k in
        rw (writes, key)
          (write-Moves f same lease.delivery_id j n dk d store.deliveries found_k found step)

    quiet-Moves :
        (f : Delivery → Delivery) (rows : List Delivery)
        → ((x : Delivery) → (f x).id ≡ x.id)
        → rows ≡ map (touch (λ x. x.id == dk.id) f) store.deliveries
        → Step dk 0 (f dk)
        → Moves j d 0 rows
    quiet-Moves f rows same writes step =
        let zero_either : (if lease.delivery_id == j then 0 else 0) ≡ 0 = ground arith in
        subst (λ n. Moves j d n rows) zero_either (written-Moves f 0 rows same writes step)

    start_owned-Moves :
        (adapters : DeliveryChannel → Option ℕ) (is_digit : ℕ → Bool) (now : ℕ)
        → is_delivering dk.status ≡ false
        → let (after, started) = start_owned adapters is_digit dk now store in
          Moves j d (contacts_of j (contacted started lease)) after.deliveries
    unfolding start_owned begun failed_with
    start_owned-Moves adapters is_digit now first =
        elim (Result-cases (
          validate adapters is_digit dk (get (λ l. l.id) dk.lead_id store.leads)
            (get (λ a. a.id) dk.provider_assignment_id store.assignments))) [
              | inl (code, failed) ↦
                  rw (failed, start_owned)
                    (quiet-Moves (failed_with code now)
                      (write_and_refresh dk (failed_with code now) now store).0.deliveries
                      (λ x. refl) (write_and_refresh-deliveries dk (failed_with code now) now store)
                      (refuse lease code now owned))
              | inr (request, passes) ↦
                  rw (passes, start_owned)
                    (written-Moves begun 1 (map (touch (λ x. x.id == dk.id) begun) store.deliveries)
                      (λ x. refl) refl (begin lease owned first))
            ]

    finish_owned-Moves :
        (base maximum attempt_number : ℕ) (outcome : AdapterOutcome) (at : ℕ)
        → Moves j d 0 (finish_owned base maximum attempt_number outcome at dk store).0.deliveries
    unfolding finish_owned
    finish_owned-Moves base maximum attempt_number outcome at =
        elim (Bool-cases (any (is_attempt dk.delivery_key attempt_number) store.attempts)) [
          | inr missing ↦ rw (missing, finish_owned) (Moves-same j d store.deliveries found)
          | inl stored ↦
              rw (stored, finish_owned)
                (quiet-Moves (settled base maximum at outcome) _
                  (settled-id base maximum at outcome)
                  (write_and_refresh-deliveries dk (settled base maximum at outcome) at _)
                  (settle lease base maximum at outcome owned))
        ]

  starts-Moves :
      (adapters : DeliveryChannel → Option ℕ) (is_digit : ℕ → Bool) (lease : DeliveryLease)
      (now : ℕ)
      → IsFirstRun lease store
      → let (after, started) = start_delivery adapters is_digit lease now store in
        Moves j d (contacts_of j (contacted started lease)) after.deliveries
  unfolding start_delivery
  starts-Moves adapters is_digit lease now first =
      elim (Option-cases (get (λ d. d.id) lease.delivery_id store.deliveries)) [
        | inl absent ↦ rw (absent, start_delivery) (Moves-same j d store.deliveries found)
        | inr (dk, found_k) ↦ elim (Bool-cases (owns dk lease)) [
          | inr lost ↦ rw (found_k, lost, start_delivery) (Moves-same j d store.deliveries found)
          | inl owned ↦
              rw (found_k, owned, start_delivery)
                (start_owned-Moves lease dk found_k owned adapters is_digit now
                  (first dk found_k owned))
        ]
      ]

  finishes-Moves :
      (base maximum : ℕ) (lease : DeliveryLease) (attempt_number : ℕ) (outcome : AdapterOutcome)
      (at : ℕ)
      → Moves j d 0
          (finish_delivery base maximum lease attempt_number outcome at store).0.deliveries
  unfolding finish_delivery
  finishes-Moves base maximum lease attempt_number outcome at =
      elim (Option-cases (get (λ d. d.id) lease.delivery_id store.deliveries)) [
        | inl absent ↦ rw (absent, finish_delivery) (Moves-same j d store.deliveries found)
        | inr (dk, found_k) ↦ elim (Bool-cases (owns dk lease)) [
          | inr lost ↦ rw (found_k, lost, finish_delivery) (Moves-same j d store.deliveries found)
          | inl owned ↦
              rw (found_k, owned, finish_delivery)
                (finish_owned-Moves lease dk found_k owned base maximum attempt_number outcome at)
        ]
      ]

  beats-Moves :
      (lease_time : ℕ) (lease : DeliveryLease) (now : ℕ)
      → Moves j d 0 (heartbeat_delivery lease_time lease now store).0.deliveries
  unfolding heartbeat_delivery update_where beaten
  beats-Moves lease_time lease now =
      let seen =
        get-touch (λ d. d.id) (beaten lease_time now) (λ x. refl) (λ x. owns x lease)
          lease.delivery_id j store.deliveries in
      elim (Bool-cases (j == lease.delivery_id && owns d lease)) [
        | inl chosen ↦ (
          beaten lease_time now d,
          ground (arith, seen, found, chosen),
          next here (beat lease lease_time now (ground (arith, chosen))),
        )
        | inr other ↦ (d, ground (arith, seen, found, other), here)
      ]

-- Whatever transaction of the queue runs, a delivery of the table stays in it and moves as the life
-- of one delivery allows, with as many contacts as the transaction makes for it.
pub step-Moves :
    (j : ℕ) (d : Delivery) {store after : Store} {c : Option ℕ}
    → IsKeyed (λ d. d.id) store.deliveries
    → get (λ d. d.id) j store.deliveries ≡ some d
    → QueueStep store c after
    → Moves j d (contacts_of j c) after.deliveries
step-Moves j d {store} keyed found (claims null_rank worker_id token lease_time now) =
    claims-Moves j d store found null_rank worker_id token lease_time now
step-Moves j d {store} keyed found (recovers stale_after now) =
    recovers-Moves j d store found stale_after now keyed
step-Moves j d {store} keyed found (starts adapters is_digit lease now first) =
    starts-Moves j d store found adapters is_digit lease now first
step-Moves j d {store} keyed found (finishes base maximum lease attempt_number outcome at) =
    finishes-Moves j d store found base maximum lease attempt_number outcome at
step-Moves j d {store} keyed found (beats lease_time lease now) =
    beats-Moves j d store found lease_time lease now
