-- ===== src/Delivery/Becomes.antt =====
-- What the row of a delivery becomes by an attempt, column by column.
use write_relay.Prelude.{
  ℕ, zero, suc, ◌+◌, ◌<◌, ◌≤◌, ◌⊎◌, ◌≢◌, ◌||◌, ◌==◌, ap, take, leb, length, ◌≡◌, refl, sym, true,
  false, not, Option, none, some, List, [], ◌∷◌, arith, Bool-cases, inl, inr, if◌then◌else◌,
}
use write_relay.Store.{delivered, retry_wait, dead_letter, DeliveryRow}
use write_relay.Store.Queue.{Delivery}
use write_relay.Store.Marks.{response_status_of, delivered_row, failed_row}
use write_relay.Delivery.{
  AttemptResult, Retry, truncate, next_delay, is_permanent, failed_attempt, Round,
}

-- The row of an item after its attempt with this result.
abbrev pub row_after : Retry → Round → Delivery → AttemptResult → DeliveryRow → DeliveryRow
row_after w r item result row =
    if result.success
    then delivered_row (item.attempts + 1) result.status_code r.at row
    else failed_row (failed_attempt w r.at item result) row

-- A status of 0 is none.
abbrev pub StatusOf : ℕ → Option ℕ → Type 0
StatusOf status none = status ≡ 0
StatusOf status (some s) = (status ≢ 0) × (s ≡ status)

-- What every recorded attempt leaves: who the row is for, and the attempt's number, time and status.
pub record Attempted (at : ℕ) (item : Delivery) (result : AttemptResult) (row row' : DeliveryRow)
    : Type 0 where
  pub event_sequence : row'.event_sequence ≡ row.event_sequence
  pub sink_id : row'.sink_id ≡ row.sink_id
  pub attempts : row'.attempts ≡ item.attempts + 1
  pub last_attempt_at : row'.last_attempt_at ≡ some at
  pub response_status : StatusOf result.status_code row'.response_status

pub record IsDelivered (at : ℕ) (row row' : DeliveryRow) : Type 0 where
  pub state : row'.state ≡ delivered
  pub delivered_at : row'.delivered_at ≡ some at
  pub dead_lettered_at : row'.dead_lettered_at ≡ none
  pub last_error : row'.last_error ≡ none
  pub next_attempt_at : row'.next_attempt_at ≡ row.next_attempt_at

pub record IsFailed (result : AttemptResult) (row' : DeliveryRow) : Type 0 where
  pub delivered_at : row'.delivered_at ≡ none
  pub last_error : row'.last_error ≡ some (take 2048 result.failure)

-- The row of an item after its attempt, by the result.
abbrev pub Becomes : Retry → Round → Delivery → AttemptResult → DeliveryRow → DeliveryRow → Type 0
Becomes w r item result row row' =
    Attempted r.at item result row row'
    × ((result.success ≡ true) × IsDelivered r.at row row'
        ⊎ (result.success ≡ false)
          × (result.retryable ≡ true)
          × (item.attempts + 1 < w.max_attempts)
          × IsFailed result row'
          × (row'.state ≡ retry_wait)
          × (row'.dead_lettered_at ≡ none)
          × (row'.next_attempt_at ≡ r.at + next_delay w item result)
        ⊎ (result.success ≡ false)
          × ((result.retryable ≡ false) ⊎ (w.max_attempts ≤ item.attempts + 1))
          × IsFailed result row'
          × (row'.state ≡ dead_letter)
          × (row'.dead_lettered_at ≡ some r.at)
          × (row'.next_attempt_at ≡ r.at))

response_status_of-StatusOf : (status : ℕ) → StatusOf status (response_status_of status)
unfolding response_status_of
response_status_of-StatusOf status = elim (Bool-cases (status == 0)) [
  | inl nothing ↦ rw nothing (ground (arith, nothing))
  | inr something ↦ rw something ((λ h. ground (arith, h, something)), refl)
]

take_all {ℓ} : {A : Type ℓ} (n : ℕ) (xs : List A) → length xs ≤ n → take n xs ≡ xs
take_all zero [] h = refl
take_all (suc n) [] h = refl
take_all zero (x ∷ xs) h = absurd (omega (arith, h))
take_all (suc n) (x ∷ xs) h = ap (λ ys. x ∷ ys) (take_all n xs (omega (arith, h)))

truncate-take : (xs : List ℕ) (limit : ℕ) → truncate xs limit ≡ take limit xs
unfolding truncate
truncate-take xs limit = elim (Bool-cases (leb (length xs) limit)) [
  | inl fits ↦ rw fits (sym (take_all limit xs (ground (arith, fits))))
  | inr long ↦ rw long refl
]

pub row_after-Becomes :
    (w : Retry) (r : Round) (item : Delivery) (result : AttemptResult) (row : DeliveryRow)
    → Becomes w r item result row (row_after w r item result row)
unfolding delivered_row failed_row failed_attempt is_permanent
row_after-Becomes w r item result row =
    let status = response_status_of-StatusOf result.status_code in
    let failure = truncate-take result.failure 2048 in
    elim (Bool-cases result.success) [
      | inl success ↦ rw success (
        record {
          event_sequence = refl;
          sink_id = refl;
          attempts = refl;
          last_attempt_at = refl;
          response_status = status;
        },
        inl (
          refl,
          record {
            state = refl;
            delivered_at = refl;
            dead_lettered_at = refl;
            last_error = refl;
            next_attempt_at = refl;
          },
        ),
      )
      | inr unsuccessful ↦
          elim (Bool-cases (not result.retryable || leb w.max_attempts (item.attempts + 1))) [
            | inl permanent ↦
                rw (unsuccessful, permanent)
                  (
                    record {
                      event_sequence = refl;
                      sink_id = refl;
                      attempts = refl;
                      last_attempt_at = refl;
                      response_status = status;
                    },
                    inr (
                        inr (
                          refl,
                          ground (arith, permanent),
                          record { delivered_at = refl; last_error = ap some failure },
                          refl,
                          refl,
                          refl,
                        )),
                  )
            | inr again ↦
                rw (unsuccessful, again)
                  (
                    record {
                      event_sequence = refl;
                      sink_id = refl;
                      attempts = refl;
                      last_attempt_at = refl;
                      response_status = status;
                    },
                    inr (
                        inl (
                          refl,
                          ground (arith, again),
                          ground (arith, again),
                          record { delivered_at = refl; last_error = ap some failure },
                          refl,
                          refl,
                          refl,
                        )),
                  )
          ]
    ]
