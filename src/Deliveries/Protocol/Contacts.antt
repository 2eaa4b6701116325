-- ===== src/Deliveries/Protocol/Contacts.antt =====
-- How often the provider of one delivery is contacted.
use digital_real_estate_engi.Common.{
  ℕ, ◌+◌, ◌≤◌, ◌<◌, ◌≡◌, refl, sym, true, false, leb, arith, Bool-cases, inl, inr,
}
use mathlib.Core.Path.{subst}
use digital_real_estate_engi.Deliveries.Row.{
  is_active, is_nonterminal, is_delivering, Delivery, owns, beaten, is_due, claimed, is_stale,
  recovered, begun, failed_with, retried_or_failed, accepted, AdapterOutcome, raised_retryable,
  raised_other, returned, settled,
}
use digital_real_estate_engi.Deliveries.Protocol.{
  Step, claim, recover, begin, refuse, settle, beat, Reach, here, next,
}

-- The attempts stay within the allowance, and one is left while the adapter may still be called.
pub record IsBounded (d : Delivery) : Type 0 where
  pub within : d.attempt_count ≤ d.max_attempts
  pub one_left :
      is_nonterminal d.status ≡ true
      → is_delivering d.status ≡ false
      → d.attempt_count < d.max_attempts

-- What one step does to the count.
record IsCounted (d after : Delivery) (contacts : ℕ) : Type 0 where
  pub counts : after.attempt_count ≡ d.attempt_count + contacts
  pub same_allowance : after.max_attempts ≡ d.max_attempts
  pub bounded : IsBounded after

retried_or_failed-IsCounted :
    (base maximum at : ℕ) (d : Delivery)
    → IsBounded d
    → IsCounted d (retried_or_failed base maximum at d) 0
unfolding retried_or_failed
retried_or_failed-IsCounted base maximum at d bounded =
    elim (Bool-cases (leb d.max_attempts d.attempt_count)) [
      | inl used_up ↦ rw used_up (record {
        counts = omega arith;
        same_allowance = refl;
        bounded = record {
          within = bounded.within;
          one_left = λ going waiting. ground (arith, going);
        };
      })
      | inr left ↦ rw left (record {
        counts = omega arith;
        same_allowance = refl;
        bounded = record {
          within = bounded.within;
          one_left = λ going waiting. ground (arith, left);
        };
      })
    ]

ended-IsCounted :
    (d after : Delivery)
    → IsBounded d
    → is_nonterminal after.status ≡ false
    → after.attempt_count ≡ d.attempt_count
    → after.max_attempts ≡ d.max_attempts
    → IsCounted d after 0
ended-IsCounted d after bounded ended count allowance = record {
  counts = omega (arith, count);
  same_allowance = allowance;
  bounded = record {
    within = omega (arith, bounded.within, count, allowance);
    one_left = λ going waiting. absurd (ground (arith, going, ended));
  };
}

settled-IsCounted :
    (base maximum at : ℕ) (outcome : AdapterOutcome) (d : Delivery)
    → IsBounded d
    → IsCounted d (settled base maximum at outcome d) 0
unfolding settled failed_with accepted
settled-IsCounted base maximum at raised_retryable d bounded =
    retried_or_failed-IsCounted base maximum at d bounded
settled-IsCounted base maximum at raised_other d bounded =
    ended-IsCounted d _ bounded refl refl refl
settled-IsCounted base maximum at (returned true retryable message) d bounded =
    ended-IsCounted d _ bounded refl refl refl
settled-IsCounted base maximum at (returned false true message) d bounded =
    retried_or_failed-IsCounted base maximum at d bounded
settled-IsCounted base maximum at (returned false false message) d bounded =
    ended-IsCounted d _ bounded refl refl refl

recovered-IsCounted :
    (now : ℕ) (d : Delivery)
    → is_active d.status ≡ true
    → IsBounded d
    → IsCounted d (recovered now d) 0
unfolding recovered
recovered-IsCounted now d active bounded = elim (Bool-cases (is_delivering d.status)) [
  | inl contacted ↦ rw contacted (record {
    counts = omega arith;
    same_allowance = refl;
    bounded = record {
      within = bounded.within;
      one_left = λ going waiting. absurd (ground (arith, going));
    };
  })
  | inr waiting ↦ rw waiting (record {
    counts = omega arith;
    same_allowance = refl;
    bounded = record {
      within = bounded.within;
      one_left = λ _ _. bounded.one_left (ground (arith, active)) waiting;
    };
  })
]

step-IsCounted :
    {d after : Delivery} {contacts : ℕ}
    → IsBounded d
    → Step d contacts after
    → IsCounted d after contacts
unfolding claimed begun beaten failed_with is_due owns is_stale
step-IsCounted {d = d} bounded (claim worker_id token lease_time now due) = record {
  counts = omega arith;
  same_allowance = refl;
  bounded = record {
    within = bounded.within;
    one_left = λ _ _. bounded.one_left (ground (arith, due)) (ground (arith, due));
  };
}
step-IsCounted {d = d} bounded (recover cutoff now stale) =
    recovered-IsCounted now d (ground (arith, stale)) bounded
step-IsCounted {d = d} bounded (begin lease owned waiting) =
    let left : d.attempt_count < d.max_attempts =
      bounded.one_left (ground (arith, owned)) waiting in
    record {
      counts = refl;
      same_allowance = refl;
      bounded = record {
        within = omega (arith, left);
        one_left = λ going calm. absurd (ground (arith, calm));
      };
    }
step-IsCounted {d = d} bounded (refuse lease code at owned) =
    ended-IsCounted d _ bounded refl refl refl
step-IsCounted {d = d} bounded (settle lease base maximum at outcome owned) =
    settled-IsCounted base maximum at outcome d bounded
step-IsCounted {d = d} bounded (beat lease lease_time now owned) = record {
  counts = omega arith;
  same_allowance = refl;
  bounded = record { within = bounded.within; one_left = bounded.one_left };
}

Reach-IsCounted :
    (d after : Delivery) (contacts : ℕ)
    → IsBounded d
    → Reach d contacts after
    → IsCounted d after contacts
Reach-IsCounted d _ _ bounded here = record {
  counts = omega arith;
  same_allowance = refl;
  bounded = bounded;
}
Reach-IsCounted d after _ bounded (next {n} {m} {middle} path last) =
    let first = Reach-IsCounted d middle n bounded path in
    let then_last = step-IsCounted first.bounded last in
    record {
      counts = omega (arith, first.counts, then_last.counts);
      same_allowance = omega (arith, first.same_allowance, then_last.same_allowance);
      bounded = then_last.bounded;
    }

-- Whatever workers claim a delivery, lose it or fail with it, its provider is contacted at most as
-- often as the delivery has attempts left, and every contact is counted on the row.
pub contacts_bounded :
    (d after : Delivery) (contacts : ℕ)
    → IsBounded d
    → Reach d contacts after
    → (after.attempt_count ≡ d.attempt_count + contacts)
      × (d.attempt_count + contacts ≤ d.max_attempts)
contacts_bounded d after contacts bounded path =
    let counted = Reach-IsCounted d after contacts bounded path in
    (counted.counts, omega (arith, counted.counts, counted.same_allowance, counted.bounded.within))

no_step_when_ended :
    {d after : Delivery} {contacts : ℕ}
    → is_nonterminal d.status ≡ false
    → Step d contacts after
    → ⊥
unfolding is_due owns is_stale
no_step_when_ended ended (claim worker_id token lease_time now due) = ground (arith, ended, due)
no_step_when_ended ended (recover cutoff now stale) = ground (arith, ended, stale)
no_step_when_ended ended (begin lease owned waiting) = ground (arith, ended, owned)
no_step_when_ended ended (refuse lease code at owned) = ground (arith, ended, owned)
no_step_when_ended ended (settle lease base maximum at outcome owned) = ground (arith, ended, owned)
no_step_when_ended ended (beat lease lease_time now owned) = ground (arith, ended, owned)

-- A delivery that was delivered, has failed, was cancelled or is of unknown outcome is never touched
-- again and its provider never contacted again: a worker that died during the provider's call is
-- not followed by a second call.
pub ended_is_final :
    (d after : Delivery) (contacts : ℕ)
    → is_nonterminal d.status ≡ false
    → Reach d contacts after
    → (contacts ≡ 0) × (after ≡ d)
ended_is_final d _ _ ended here = (refl, refl)
ended_is_final d after _ ended (next {n} {m} {middle} path last) =
    let (quiet, same) = ended_is_final d middle n ended path in
    absurd (no_step_when_ended (subst (λ x. is_nonterminal x.status ≡ false) (sym same) ended) last)
