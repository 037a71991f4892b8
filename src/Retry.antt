-- ===== src/Retry.antt =====
-- app/utils/promise-queue-with-jittering.js: a call that is tried again after growing delays. The
-- promise to execute and the moments of a cancellation are arguments: what each try finds. A thrown
-- error is an object, so `if (lastError)` holds of it.
pub mod Order
use sama_server.Prelude.{
  ℕ, zero, suc, ◌+◌, ◌*◌, Bool, true, false, List, [], ◌∷◌, map, Option, none, some, if◌then◌else◌,
}

module _ (A E : Type 0) where
  -- What a try throws: CancelQueueError, or an error of the promise.
  pub data Thrown : Type 0 where
    canceled : Thrown
    thrown : E → Thrown

  pub data Execution : Type 0 where
    success : A → Execution
    failure : Thrown → Execution

  -- `isCanceled` before and after the delay, and what the promise comes to.
  pub record Try : Type 0 where
    pub canceled_before : Bool
    pub canceled_after : Bool
    pub execution : Execution

  -- How the promise of `start` settles; it may resolve with undefined.
  pub data Settled : Type 0 where
    resolved : Option A → Settled
    rejected : Thrown → Settled

-- `Math.pow(index + 1, 2) * delay` for the indices from the first one on
unfoldable pub try_delays : ℕ → ℕ → ℕ → List ℕ
try_delays delay first zero = []
try_delays delay first (suc n) = suc first * suc first * delay ∷ try_delays delay (suc first) n

module _ {A E : Type 0} (tries : ℕ → Try A E) (canceled_at_end : Bool) where
  -- What comes after the loop, with `lastError`.
  abbrev pub finish : Option (Thrown A E) → Settled A E
  finish (some e) = rejected e
  finish none = if canceled_at_end then rejected canceled else resolved none

  -- A try: what it throws or returns, and whether the delay was waited for.
  abbrev pub attempt : Try A E → Bool × Execution A E
  attempt t =
      if t.canceled_before
      then (false, failure canceled)
      else (true, if t.canceled_after then failure canceled else t.execution)

  -- The delays that were waited for, and the outcome.
  unfoldable pub run_tries : List ℕ → ℕ → Option (Thrown A E) → List ℕ × Settled A E
  run_tries [] i last = ([], finish last)
  run_tries (d ∷ ds) i last =
      let (waited, execution) = attempt (tries i) in
      let after : List ℕ × Settled A E = elim execution [
        | success a ↦ ([], resolved (some a))
        | failure canceled ↦ ([], rejected canceled)
        | failure (thrown e) ↦ run_tries ds (suc i) (some (thrown e))
      ] in
      ((if waited then d ∷ after.0 else after.0), after.1)

  unfoldable pub start : Bool → ℕ → ℕ → List ℕ × Settled A E
  start canceled_at_start try_count delay =
      if canceled_at_start
      then ([], rejected canceled)
      else run_tries (try_delays delay 0 try_count) 0 none
