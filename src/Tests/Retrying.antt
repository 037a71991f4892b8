-- ===== src/Tests/Retrying.antt =====
-- Three tries, the last of which succeeds.
use sama_server.Prelude.{ℕ, zero, suc, ◌<◌, ◌≡◌, refl, false, [], ◌∷◌, some, arith}
use sama_server.Retry.{Try, thrown, success, failure, resolved, rejected, try_delays, start}
use sama_server.Retry.Order.{Fails, start_first_success, start_all_fail}

abbrev failing : ℕ → Try ℕ ℕ
failing j = record {
  canceled_before = false;
  canceled_after = false;
  execution = failure (thrown j);
}

abbrev third : ℕ → Try ℕ ℕ
third (suc (suc zero)) = record {
  canceled_before = false;
  canceled_after = false;
  execution = success 7;
}
third j = failing j

delays : try_delays 10 0 3 ≡ 10 ∷ 40 ∷ 90 ∷ []
unfolding try_delays
delays = refl

failing-Fails : (j : ℕ) → Fails failing false j
failing-Fails j = (j, refl)

third-Fails : (j : ℕ) → j < 2 → Fails third false j
third-Fails zero h = (0, refl)
third-Fails (suc zero) h = (1, refl)
third-Fails (suc (suc j)) h = absurd (omega arith)

start_first_success_example : start third false false 5 10 ≡ (try_delays 10 0 3, resolved (some 7))
start_first_success_example = start_first_success third false 10 2 2 7 third-Fails refl

start_all_fail_example : start failing false false 3 10 ≡ (try_delays 10 0 3, rejected (thrown 2))
start_all_fail_example = start_all_fail failing false 10 2 2 (λ j h. failing-Fails j) refl
