-- ===== src/Mongo/Counting.antt =====
-- Consequences of the laws of a collection, in terms of the queries alone.
use sama_server.Prelude.{
  Bool-cases, inl, inr, if◌then◌else◌, ◌==◌, sym, ◌+◌, ◌≤◌, ◌≡◌, refl, ap, ◌∙◌, fun_ext, Bool, true,
  false, not, ◌&&◌, arith, some,
}
use sama_server.Mongo.{Collection}

module _ {D S : Type 0} (c : Collection D S) where
  pub count_ext : {p q : D → Bool} (s : S) → ((d : D) → p d ≡ q d) → c.count p s ≡ c.count q s
  count_ext s h = ap (λ r. c.count r s) (fun_ext h)

  pub count_zero : {p : D → Bool} (s : S) → ((d : D) → p d ≡ false) → c.count p s ≡ 0
  count_zero s h = count_ext s h ∙ c.count_false s

  and_absorb : (a b : Bool) → (b ≡ true → a ≡ true) → (a && b) ≡ b
  and_absorb true b h = refl
  and_absorb false true h = h refl
  and_absorb false false h = refl

  pub count_mono :
      (p q : D → Bool) (s : S) → ((d : D) → p d ≡ true → q d ≡ true) → c.count p s ≤ c.count q s
  count_mono p q s h = omega (
    arith,
    c.count_split q p s,
    count_ext {p = λ d. q d && p d} {q = p} s (λ d. and_absorb (q d) (p d) (h d)),
  )

  -- Exclusive queries that together make up a third one.
  pub count_sum :
      (p q r : D → Bool) (s : S)
      → ((d : D) → (p d && q d) ≡ r d)
      → c.count p s ≡ c.count r s + c.count (λ d. p d && not (q d)) s
  count_sum p q r s h =
      omega (arith, c.count_split p q s, count_ext {p = λ d. p d && q d} {q = r} s h)

  -- Of a query that at most one document matches, what else the document passes.
  pub found_count :
      (q p : D → Bool) (s : S) (d : D)
      → c.find_one q s ≡ some d
      → c.count q s ≤ 1
      → c.count (λ x. q x && p x) s ≡ (if p d then 1 else 0)
  found_count q p s d found one =
      let (passes, counts) = c.find_one_some q s d found in
      let split = c.count_split q p s in
      elim (Bool-cases (p d)) [
        | inl e ↦ rw e (omega (arith, split, counts (λ x. q x && p x) (rw (passes, e) refl)))
        | inr e ↦ rw e (omega (arith, split, counts (λ x. q x && not (p x)) (rw (passes, e) refl)))
      ]

  -- An upsert inserts exactly when nothing matches.
  pub upsert_one_flag : (q : D → Bool) (d : D) (s : S) → (c.upsert_one q d s).1 ≡ (c.count q s == 0)
  upsert_one_flag q d s = elim (Bool-cases (c.count q s == 0)) [
    | inl e ↦ (c.upsert_one_new q d s (ground arith)).0 ∙ sym e
    | inr e ↦ rw (c.upsert_one_old q d s (ground arith), e)
  ]

  pub count-upsert_one :
      (p q : D → Bool) (d : D) (s : S)
      → c.count p (c.upsert_one q d s).0 ≡ (if c.count q s == 0 && p d then 1 else 0) + c.count p s
  count-upsert_one p q d s = elim (Bool-cases (c.count q s == 0)) [
    | inl e ↦ rw e ((c.upsert_one_new q d s (ground arith)).1 p)
    | inr e ↦ rw (c.upsert_one_old q d s (ground arith), e) (omega arith)
  ]
