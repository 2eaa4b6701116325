-- ===== src/Scans/Claim/Rounds.antt =====
-- What a round of `claim_next_scan` that claims nothing leaves of a row.
use digital_real_estate_engi.Common.{
  ℕ, ◌≡◌, ◌⊎◌, ◌∙◌, sym, inl, inr, refl, true, Option, some, List, map, ◌&&◌, ◌==◌, arith,
  Option-cases, Bool-cases,
}
use digital_real_estate_engi.Common.Table.{touch, get, get-map, IsKeyed, IsKeyed-map}
use digital_real_estate_engi.Scans.Row.{ScanRow}
use digital_real_estate_engi.Scans.Claim.{to_cancel, to_claim, cancelled_values}

-- The tables after the updates of one round.
abbrev pub cancel_one : ℕ → ℕ → List ScanRow → List ScanRow
cancel_one now i = map (touch (λ r. r.id == i && to_cancel r) (cancelled_values now))

-- What a round that claims nothing may do to a row: leave it, or cancel it on request.
abbrev pub Settled : ℕ → Option ScanRow → Option ScanRow → Type 0
Settled now o o' =
    (o' ≡ o)
    ⊎ ((r : ScanRow) × (o ≡ some r) × (to_cancel r ≡ true) × (o' ≡ some (cancelled_values now r)))

pub cancel_one-Settled :
    (now i j : ℕ) (rows : List ScanRow)
    → Settled now (get (λ r. r.id) j rows) (get (λ r. r.id) j (cancel_one now i rows))
unfolding cancelled_values
cancel_one-Settled now i j rows =
    rw
      (get-map (λ r. r.id) (touch (λ r. r.id == i && to_cancel r) (cancelled_values now))
        (λ r. ground arith) j rows)
      (elim (Option-cases (get (λ r. r.id) j rows)) [
        | inl e ↦ rw e (inl refl)
        | inr (r, e) ↦ elim (Bool-cases (r.id == i && to_cancel r)) [
          | inl t ↦ inr (r, e, ground arith, rw (e, t))
          | inr f ↦ inl (rw (e, f))
        ]
      ])

-- A cancelled row is not queued, so it is not cancelled again.
pub Settled-trans :
    (now : ℕ) (o o' o'' : Option ScanRow)
    → Settled now o o'
    → Settled now o' o''
    → Settled now o o''
unfolding cancelled_values
Settled-trans now o o' o'' (inl e) (inl e') = inl (e' ∙ e)
Settled-trans now o o' o'' (inl e) (inr (r, p, c, q)) = inr (r, sym e ∙ p, c, q)
Settled-trans now o o' o'' (inr (r, p, c, q)) (inl e') = inr (r, p, c, e' ∙ q)
Settled-trans now o o' o'' (inr (r, p, c, q)) (inr (r', p', c', q')) = absurd (ground arith)

-- A row that may be claimed after such rounds is as it was before them.
pub Settled-to_claim :
    (now : ℕ) (o : Option ScanRow) (r : ScanRow)
    → Settled now o (some r)
    → to_claim now r ≡ true
    → o ≡ some r
unfolding cancelled_values
Settled-to_claim now o r (inl e) h = sym e
Settled-to_claim now o r (inr (r', p, c, q)) h = absurd (ground arith)

pub cancel_one-IsKeyed :
    (now i : ℕ) (rows : List ScanRow)
    → IsKeyed (λ r. r.id) rows
    → IsKeyed (λ r. r.id) (cancel_one now i rows)
unfolding cancelled_values
cancel_one-IsKeyed now i =
    IsKeyed-map (λ r. r.id) (touch (λ r. r.id == i && to_cancel r) (cancelled_values now))
      (λ r. ground arith)
