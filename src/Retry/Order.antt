-- ===== src/Retry/Order.antt =====
-- In which order the tries are made, how many, and which of them decides.
use sama_server.Prelude.{
  ℕ, zero, suc, ◌+◌, ◌*◌, ◌≤◌, ◌<◌, ◌≡◌, refl, sym, ap, ◌∙◌, Bool, true, false, List, [], ◌∷◌, ◌++◌,
  subst, Option, none, some, arith, length,
}
use sama_server.Retry.{
  Thrown, Try, Settled, thrown, success, failure, resolved, rejected, try_delays, attempt,
  run_tries, start,
}

length-try_delays : (delay i n : ℕ) → length (try_delays delay i n) ≡ n
unfolding try_delays
length-try_delays delay i zero = refl
length-try_delays delay i (suc n) = omega (arith, length-try_delays delay (suc i) n)

split_delays :
    (delay i k m : ℕ)
    → try_delays delay i (k + m) ≡ try_delays delay i k ++ try_delays delay (i + k) m
unfolding try_delays
split_delays delay i zero m =
    let none_more : zero + m ≡ m = omega arith in
    let here : i ≡ i + zero = omega arith in
    ap (λ n. try_delays delay i n) none_more ∙ ap (λ j. try_delays delay j m) here
split_delays delay i (suc k) m =
    let one_more : suc k + m ≡ suc (k + m) = omega arith in
    let next : suc i + k ≡ i + suc k = omega arith in
    ap (λ n. try_delays delay i n) one_more
    ∙ ap (λ ys. suc i * suc i * delay ∷ ys)
        (split_delays delay (suc i) k m
          ∙ ap (λ j. try_delays delay (suc i) k ++ try_delays delay j m) next)

-- The first k delays, and the next one.
shape :
    (delay k m : ℕ)
    → try_delays delay 0 (k + suc m)
      ≡ try_delays delay 0 k ++ suc k * suc k * delay ∷ try_delays delay (suc k) m
unfolding try_delays
shape delay k m =
    let here : 0 + k ≡ k = omega arith in
    split_delays delay 0 k (suc m)
    ∙ ap (λ j. try_delays delay 0 k ++ suc j * suc j * delay ∷ try_delays delay (suc j) m) here

first_delays :
    (delay k : ℕ) → try_delays delay 0 (suc k) ≡ try_delays delay 0 k ++ suc k * suc k * delay ∷ []
unfolding try_delays
first_delays delay k =
    let one : suc k ≡ k + 1 = omega arith in ap (λ n. try_delays delay 0 n) one ∙ shape delay k 0

after_delays : (delay k : ℕ) → k ≡ 0 + length (try_delays delay 0 k)
after_delays delay k = omega (arith, length-try_delays delay 0 k)

module _ {A E : Type 0} (tries : ℕ → Try A E) (at_end : Bool) where
  -- The j-th try is made, and the promise of it rejects with an error.
  abbrev pub Fails : ℕ → Type 0
  Fails j = (e : E) × (attempt tries at_end (tries j) ≡ (true, failure (thrown e)))

  run_first_success :
      (ds : List ℕ) (d : ℕ) (rest : List ℕ) (i : ℕ) (last : Option (Thrown A E)) (a : A)
      → ((j : ℕ) → i ≤ j → j < i + length ds → Fails j)
      → attempt tries at_end (tries (i + length ds)) ≡ (true, success a)
      → run_tries tries at_end (ds ++ d ∷ rest) i last ≡ (ds ++ d ∷ [], resolved (some a))
  unfolding run_tries
  run_first_success [] d rest i last a before hit =
      let here : i + 0 ≡ i = omega arith in
      let hit' = subst (λ j. attempt tries at_end (tries j) ≡ (true, success a)) here hit in
      rw hit' refl
  run_first_success (x ∷ ds) d rest i last a before hit =
      let (e, fails) = before i (omega arith) (omega arith) in
      let next : i + suc (length ds) ≡ suc i + length ds = omega arith in
      rw fails (
        ap (λ (r : List ℕ × Settled A E). (x ∷ r.0, r.1))
          (run_first_success ds d rest (suc i) (some (thrown e)) a
            (λ j from to. before j (omega arith) (omega arith))
            (subst (λ j. attempt tries at_end (tries j) ≡ (true, success a)) next hit)))

  -- The first try that succeeds decides: when it comes after k tries that fail, the result is its own,
  -- and just the first k + 1 delays were waited for, in order.
  pub start_first_success :
      (delay k m : ℕ) (a : A)
      → ((j : ℕ) → j < k → Fails j)
      → attempt tries at_end (tries k) ≡ (true, success a)
      → start tries at_end false (k + suc m) delay ≡ (try_delays delay 0 (suc k), resolved (some a))
  unfolding start
  start_first_success delay k m a before hit =
      let ds = try_delays delay 0 k in
      ap (λ xs. run_tries tries at_end xs 0 none) (shape delay k m)
      ∙ (run_first_success ds (suc k * suc k * delay) (try_delays delay (suc k) m) 0 none a
            (λ j from to. before j (omega (arith, after_delays delay k)))
            (subst (λ j. attempt tries at_end (tries j) ≡ (true, success a)) (after_delays delay k)
              hit)
          ∙ ap (λ xs. (xs, resolved (some a))) (sym (first_delays delay k)))

  run_all_fail :
      (ds : List ℕ) (i : ℕ) (last : Option (Thrown A E)) (e : E)
      → ((j : ℕ) → i ≤ j → j < i + length ds → Fails j)
      → attempt tries at_end (tries (i + length ds)) ≡ (true, failure (thrown e))
      → (d : ℕ) → run_tries tries at_end (ds ++ d ∷ []) i last ≡ (ds ++ d ∷ [], rejected (thrown e))
  unfolding run_tries
  run_all_fail [] i last e before bad d =
      let here : i + 0 ≡ i = omega arith in
      let bad' =
        subst (λ j. attempt tries at_end (tries j) ≡ (true, failure (thrown e))) here bad in
      rw bad' refl
  run_all_fail (x ∷ ds) i last e before bad d =
      let (e', fails) = before i (omega arith) (omega arith) in
      let next : i + suc (length ds) ≡ suc i + length ds = omega arith in
      rw fails (
        ap (λ (r : List ℕ × Settled A E). (x ∷ r.0, r.1))
          (run_all_fail ds (suc i) (some (thrown e')) e
            (λ j from to. before j (omega arith) (omega arith))
            (subst (λ j. attempt tries at_end (tries j) ≡ (true, failure (thrown e))) next bad) d))

  -- When all k + 1 tries fail, all delays were waited for and the error of the last try is thrown.
  pub start_all_fail :
      (delay k : ℕ) (e : E)
      → ((j : ℕ) → j < k → Fails j)
      → attempt tries at_end (tries k) ≡ (true, failure (thrown e))
      → start tries at_end false (suc k) delay ≡ (try_delays delay 0 (suc k), rejected (thrown e))
  unfolding start
  start_all_fail delay k e before bad =
      let ds = try_delays delay 0 k in
      ap (λ xs. run_tries tries at_end xs 0 none) (first_delays delay k)
      ∙ (run_all_fail ds 0 none e (λ j from to. before j (omega (arith, after_delays delay k)))
            (subst (λ j. attempt tries at_end (tries j) ≡ (true, failure (thrown e)))
              (after_delays delay k) bad)
            (suc k * suc k * delay)
          ∙ ap (λ xs. (xs, rejected (thrown e))) (sym (first_delays delay k)))
