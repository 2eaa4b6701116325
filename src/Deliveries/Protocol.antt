-- ===== src/Deliveries/Protocol.antt =====
-- The life of one delivery, whatever workers claim it, lose it, or call its provider.
pub mod Contacts
use digital_real_estate_engi.Common.{ℕ, ◌+◌, ◌≡◌, true, false}
use digital_real_estate_engi.Deliveries.Row.{
  is_delivering, ErrorCode, Delivery, DeliveryLease, owns, beaten, is_due, claimed, is_stale,
  recovered, begun, failed_with, AdapterOutcome, settled,
}

-- One write of the worker to the row, under the guard of the source; a worker begins a delivery once
-- for each lease, so before it is delivering. `contacts` counts the calls of the adapter: one follows
-- every `begin`.
pub data Step (d : Delivery) : (contacts : ℕ) → Delivery → Type 0 where
  claim :
      (worker_id token lease_time now : ℕ)
      → is_due now d ≡ true
      → Step d 0 (claimed worker_id token lease_time now d)
  recover : (cutoff now : ℕ) → is_stale cutoff now d ≡ true → Step d 0 (recovered now d)
  begin :
      (lease : DeliveryLease)
      → owns d lease ≡ true
      → is_delivering d.status ≡ false
      → Step d 1 (begun d)
  refuse :
      (lease : DeliveryLease) (code : ErrorCode) (at : ℕ)
      → owns d lease ≡ true
      → Step d 0 (failed_with code at d)
  settle :
      (lease : DeliveryLease) (base maximum at : ℕ) (outcome : AdapterOutcome)
      → owns d lease ≡ true
      → Step d 0 (settled base maximum at outcome d)
  beat :
      (lease : DeliveryLease) (lease_time now : ℕ)
      → owns d lease ≡ true
      → Step d 0 (beaten lease_time now d)

pub data Reach (d : Delivery) : (contacts : ℕ) → Delivery → Type 0 where
  here : Reach d 0 d
  next :
      {n m : ℕ} {middle after : Delivery}
      → Reach d n middle
      → Step middle m after
      → Reach d (m + n) after
