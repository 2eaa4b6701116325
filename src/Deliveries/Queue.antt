-- ===== src/Deliveries/Queue.antt =====
-- The delivery queue under any number of workers: the operations of `lead_delivery_worker_loop` and
-- of the heartbeats, in any order.
pub mod Refine
pub mod Total
use digital_real_estate_engi.Common.{
  ℕ, ◌+◌, ◌≡◌, Bool, true, false, Option, none, some, ◌==◌, if◌then◌else◌,
}
use digital_real_estate_engi.Common.Table.{get}
use digital_real_estate_engi.Deliveries.Row.{
  DeliveryChannel, Delivery, DeliveryLease, owns, is_delivering, AdapterOutcome,
}
use digital_real_estate_engi.Deliveries.Store.{Store}
use digital_real_estate_engi.Deliveries.Run.{
  claim_next_delivery, recover_stale_deliveries, Started, skipped, refused, contacting,
  start_delivery, finish_delivery, heartbeat_delivery,
}

-- The delivery whose adapter is called after a first transaction.
abbrev pub contacted : Started → DeliveryLease → Option ℕ
contacted skipped lease = none
contacted (refused alert) lease = none
contacted (contacting request number) lease = some lease.delivery_id

-- A worker runs a lease once, right after its claim: the row that it owns is not yet delivering.
abbrev pub IsFirstRun : DeliveryLease → Store → Type 0
IsFirstRun lease store =
    (d : Delivery)
    → get (λ d. d.id) lease.delivery_id store.deliveries ≡ some d
    → owns d lease ≡ true
    → is_delivering d.status ≡ false

-- One transaction, with the delivery whose provider is contacted after it, if any.
pub data QueueStep (store : Store) : Option ℕ → Store → Type 0 where
  claims :
      (null_rank worker_id : ℕ) (token : ℕ → ℕ) (lease_time now : ℕ)
      → QueueStep store none (claim_next_delivery null_rank worker_id token lease_time now store).0
  recovers :
      (stale_after now : ℕ)
      → QueueStep store none (recover_stale_deliveries stale_after now store).0
  starts :
      (adapters : DeliveryChannel → Option ℕ) (is_digit : ℕ → Bool) (lease : DeliveryLease)
      (now : ℕ)
      → IsFirstRun lease store
      → QueueStep store
          (contacted (start_delivery adapters is_digit lease now store).1 lease)
          (start_delivery adapters is_digit lease now store).0
  finishes :
      (base maximum : ℕ) (lease : DeliveryLease) (attempt_number : ℕ) (outcome : AdapterOutcome)
      (at : ℕ)
      → QueueStep store none (finish_delivery base maximum lease attempt_number outcome at store).0
  beats :
      (lease_time : ℕ) (lease : DeliveryLease) (now : ℕ)
      → QueueStep store none (heartbeat_delivery lease_time lease now store).0

abbrev pub contacts_of : ℕ → Option ℕ → ℕ
contacts_of j none = 0
contacts_of j (some k) = if k == j then 1 else 0

-- A run of the queue, with how often the provider of delivery `j` is contacted in it.
pub data Runs (j : ℕ) (store : Store) : ℕ → Store → Type 0 where
  here : Runs j store 0 store
  next :
      {n : ℕ} {c : Option ℕ} {middle after : Store}
      → Runs j store n middle
      → QueueStep middle c after
      → Runs j store (contacts_of j c + n) after
