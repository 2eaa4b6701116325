-- ===== src/Deliveries/Writes.antt =====
-- What each operation of the worker does to the rows of the deliveries.
use mathlib.Core.Option
use digital_real_estate_engi.Common.{
  ℕ, ◌-◌, ◌≡◌, ◌⊎◌, ◌∙◌, inl, inr, refl, ap, true, Option, some, List, [], ◌∷◌, map, ◌&&◌, ◌==◌,
  arith, Bool-cases, Option-cases,
}
use digital_real_estate_engi.Common.Table.{
  get, touch, update_where, get-touch, IsKeyed, IsKeyed-map,
}
use digital_real_estate_engi.Common.Sweep.{sweep, sweep-selected, sweep-IsKeyed}
use digital_real_estate_engi.Deliveries.Row.{
  Delivery, is_delivering, is_due, claimed, is_stale, recovered,
}
use digital_real_estate_engi.Deliveries.Store.{Store, refresh_lead_state}
use digital_real_estate_engi.Deliveries.Run.{
  claim_from, write, write_and_refresh, recovered_rows, recover_one, recover_all, stale_deliveries,
  recover_stale_deliveries,
}

refresh_lead_state-deliveries :
    (lead_id at : ℕ) (store : Store)
    → (refresh_lead_state lead_id at store).0.deliveries ≡ store.deliveries
unfolding refresh_lead_state
refresh_lead_state-deliveries lead_id at store = ground arith

pub write_and_refresh-deliveries :
    (d : Delivery) (f : Delivery → Delivery) (at : ℕ) (store : Store)
    → (write_and_refresh d f at store).0.deliveries
      ≡ map (touch (λ x. x.id == d.id) f) store.deliveries
unfolding write_and_refresh
write_and_refresh-deliveries d f at store =
    refresh_lead_state-deliveries d.lead_id at (write d.id f store)

module _ (worker_id : ℕ) (token : ℕ → ℕ) (lease_time now : ℕ) where
  -- What the claim may do to a row: leave it, or lease it if it is due.
  abbrev pub ClaimedOrSame : Option Delivery → Option Delivery → Type 0
  ClaimedOrSame o o' =
      (o' ≡ o)
      ⊎ ((d : Delivery) × (t : ℕ) × (o ≡ some d)
          × (is_due now d ≡ true)
          × (o' ≡ some (claimed worker_id t lease_time now d)))

  claim_one-row :
      (t i j : ℕ) (rows : List Delivery)
      → ClaimedOrSame (get (λ d. d.id) j rows) (
          get
            (λ d. d.id)
            j
            (map
              (touch (λ d. d.id == i && is_due now d) (claimed worker_id t lease_time now))
              rows))
  unfolding claimed
  claim_one-row t i j rows =
      rw
        (get-touch (λ d. d.id) (claimed worker_id t lease_time now) (λ d. refl) (is_due now) i j
          rows)
        (elim (Option-cases (get (λ d. d.id) j rows)) [
          | inl e ↦ inl (ground (arith, e))
          | inr (d, e) ↦ elim (Bool-cases (j == i)) [
            | inl is ↦ elim (Bool-cases (is_due now d)) [
              | inl due ↦ inr (d, t, e, due, rw (e, is, due))
              | inr other ↦ inl (rw (e, is, other))
            ]
            | inr other ↦ inl (rw other)
          ]
        ])

  pub claim_from-row :
      (ids : List ℕ) (j : ℕ) (rows : List Delivery)
      → ClaimedOrSame
          (get (λ d. d.id) j rows)
          (get (λ d. d.id) j (claim_from worker_id token lease_time now ids rows).0)
  unfolding claim_from update_where
  claim_from-row [] j rows = inl refl
  claim_from-row (i ∷ ids) j rows =
      elim (Bool-cases (
        (update_where (λ d. d.id == i && is_due now d) (claimed worker_id (token i) lease_time now)
          rows).1
        == 0)) [
          | inl missed ↦ rw missed (claim_from-row ids j rows)
          | inr hit ↦ rw hit (claim_one-row (token i) i j rows)
        ]

  pub claim_from-IsKeyed :
      (ids : List ℕ) (rows : List Delivery)
      → IsKeyed (λ d. d.id) rows
      → IsKeyed (λ d. d.id) (claim_from worker_id token lease_time now ids rows).0
  unfolding claim_from update_where claimed
  claim_from-IsKeyed [] rows keyed = keyed
  claim_from-IsKeyed (i ∷ ids) rows keyed =
      elim (Bool-cases (
        (update_where (λ d. d.id == i && is_due now d) (claimed worker_id (token i) lease_time now)
          rows).1
        == 0)) [
          | inl missed ↦ rw missed (claim_from-IsKeyed ids rows keyed)
          | inr hit ↦ rw hit (
              IsKeyed-map (λ d. d.id)
                (touch (λ d. d.id == i && is_due now d)
                  (claimed worker_id (token i) lease_time now))
                (λ d. ground arith) rows keyed)
        ]

recovered-id : (now i : ℕ) (d : Delivery) → (recovered now d).id ≡ d.id
unfolding recovered
recovered-id now i d = ground arith

recovered_rows-deliveries :
    (now : ℕ) (d : Delivery) (store : Store)
    → (recovered_rows now d store).deliveries
      ≡ map (touch (λ x. x.id == d.id) (recovered now)) store.deliveries
unfolding recovered_rows
recovered_rows-deliveries now d store = elim (Bool-cases (is_delivering d.status)) [
  | inl contacted ↦ rw contacted
  | inr waiting ↦ rw waiting
]

recover_one-deliveries :
    (now : ℕ) (d : Delivery) (store : Store)
    → (recover_one now d store).deliveries
      ≡ map (touch (λ x. x.id == d.id) (recovered now)) store.deliveries
unfolding recover_one
recover_one-deliveries now d store =
    refresh_lead_state-deliveries d.lead_id now (recovered_rows now d store)
    ∙ recovered_rows-deliveries now d store

recover_all-sweep :
    (now : ℕ) (stale : List Delivery) (store : Store)
    → (recover_all now stale store).deliveries
      ≡ sweep (λ d. d.id) (λ _. recovered now) (recovered-id now) stale store.deliveries
unfolding recover_all sweep
recover_all-sweep now [] store = refl
recover_all-sweep now (d ∷ stale) store =
    recover_all-sweep now stale (recover_one now d store)
    ∙ ap (sweep (λ d. d.id) (λ _. recovered now) (recovered-id now) stale)
        (recover_one-deliveries now d store)

-- After a recovery pass over rows with distinct ids every stale delivery is the recovered one, and
-- every other row is as it was.
pub recover_stale_deliveries-get :
    (stale_after now j : ℕ) (store : Store)
    → IsKeyed (λ d. d.id) store.deliveries
    → get (λ d. d.id) j (recover_stale_deliveries stale_after now store).0.deliveries
      ≡ Option.map
          (touch (is_stale (now - stale_after) now) (recovered now))
          (get (λ d. d.id) j store.deliveries)
unfolding recover_stale_deliveries
recover_stale_deliveries-get stale_after now j store keyed =
    ap (get (λ d. d.id) j)
      (recover_all-sweep now (stale_deliveries (now - stale_after) now store) store)
    ∙ sweep-selected (λ d. d.id) (λ _. recovered now) (recovered-id now) (λ d. d.id)
        (is_stale (now - stale_after) now) j store.deliveries keyed

pub recover_stale_deliveries-IsKeyed :
    (stale_after now : ℕ) (store : Store)
    → IsKeyed (λ d. d.id) store.deliveries
    → IsKeyed (λ d. d.id) (recover_stale_deliveries stale_after now store).0.deliveries
unfolding recover_stale_deliveries
recover_stale_deliveries-IsKeyed stale_after now store keyed =
    rw (recover_all-sweep now (stale_deliveries (now - stale_after) now store) store) (
      sweep-IsKeyed (λ d. d.id) (λ _. recovered now) (recovered-id now)
        (stale_deliveries (now - stale_after) now store) store.deliveries keyed)
