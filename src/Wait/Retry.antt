-- ===== src/Wait/Retry.antt =====
-- The retries of crates/chanvoy-daemon/src/wait.rs: `provider_retry`. A round is one pass of its loop,
-- with the clock in milliseconds as it is read and the answer of the call; the rounds are an
-- argument, and none is the result while the loop still runs.
use chanvoy.Base.{
  ℕ, zero, suc, ◌+◌, ◌-◌, ◌*◌, ◌≤◌, ◌<◌, List, [], ◌∷◌, Option, none, some, Result, ok, err, Bool,
  true, false, if◌then◌else◌, leb, ltb, length, ◌≢◌, arith,
}
use chanvoy.Wait.{
  WaitError, observation_failing, call_stalled, wait_timeout, zero_timeout, other_error,
}

abbrev pub backoff_base : ℕ
backoff_base = 500

abbrev pub backoff_cap : ℕ
backoff_cap = 8000

abbrev pub least : ℕ → ℕ → ℕ
least a b = if ltb a b then a else b

unfoldable pub validate_wait_timeout_secs : ℕ → Result WaitError (Unit {0})
validate_wait_timeout_secs zero = err zero_timeout
validate_wait_timeout_secs (suc n) = ok tt

-- `is_terminal_auth` and `is_retryable_provider` of the error of a call, or that it overran.
pub data Answer (A : Type 0) : Type 0 where
  answered : A → Answer A
  terminal_auth retryable overran : Answer A
  final : WaitError → Answer A

pub record Round (A : Type 0) : Type 0 where
  pub now : ℕ
  pub answer : Answer A
  pub ended : ℕ

unfoldable pub deadline_error : Bool → WaitError
deadline_error true = observation_failing
deadline_error false = wait_timeout

-- The sleep after a failed round, and the delay after it.
abbrev pub slept : ℕ → ℕ → ℕ → ℕ
slept deadline delay now = least (least delay (deadline - now)) backoff_cap

abbrev pub next_delay : ℕ → ℕ
next_delay delay = least (delay * 2) backoff_cap

module _ {A : Type 0} (deadline : ℕ) where
  unfoldable pub retry_from : ℕ → Bool → List (Round A) → Option (Result WaitError A)
  retry_from delay saw_retryable [] = none
  retry_from delay saw_retryable (r ∷ more) =
      let rest = retry_from (next_delay delay) true more in
      if leb deadline r.now then some (err (deadline_error saw_retryable)) else elim r.answer [
        | answered v ↦ some (ok v)
        | terminal_auth ↦ some (err other_error)
        | retryable ↦ if leb deadline r.ended then some (err (deadline_error true)) else rest
        | overran ↦ some (err call_stalled)
        | final e ↦ some (err e)
      ]

  unfoldable pub provider_retry : List (Round A) → Option (Result WaitError A)
  provider_retry rounds = retry_from backoff_base false rounds

  -- The clock of the rounds does not go back, and a sleep takes its time.
  abbrev pub Paced : ℕ → ℕ → List (Round A) → Type 0
  Paced since delay [] = Unit
  Paced since delay (r ∷ more) =
      (since ≤ r.now)
      × ((r.now ≤ r.ended) × Paced (r.ended + slept deadline delay r.ended) (next_delay delay) more)

  retry_from_ends :
      (rounds : List (Round A)) (since delay : ℕ) (saw : Bool)
      → 0 < delay
      → Paced since delay rounds
      → deadline - since < length rounds
      → retry_from delay saw rounds ≢ none
  unfolding retry_from
  retry_from_ends [] since delay saw d h n e = omega arith
  retry_from_ends (r ∷ more) since delay saw d h n e =
      ground (
        arith,
        retry_from_ends more (r.ended + slept deadline delay r.ended) (next_delay delay) true,
      )

  -- When the rounds follow the clock from a start, and there are more of them than milliseconds up to
  -- the deadline, `provider_retry` has ended.
  pub provider_retry_ends :
      (rounds : List (Round A)) (start : ℕ)
      → Paced start backoff_base rounds
      → deadline - start < length rounds
      → provider_retry rounds ≢ none
  unfolding provider_retry
  provider_retry_ends rounds start h n =
      retry_from_ends rounds start backoff_base false (omega arith) h n
