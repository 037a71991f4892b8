-- ===== src/Mongo/Memory.antt =====
-- A collection as a list of documents: the laws of `Collection` can hold.
use Prim.Native.Nat.{min}
use mathlib.Core.Option
use sama_server.Prelude.{
  ℕ, ◌+◌, ◌≤◌, ◌<◌, ◌≡◌, refl, ap, ◌∙◌, Bool, true, false, not, ◌&&◌, arith, if◌then◌else◌, List,
  [], ◌∷◌, map, find, filter, count, take, length, zero, suc, any, any-count, none, some, lt→ltb,
}
use sama_server.Mongo.{Collection}

module _ {D : Type 0} where
  pub count_false : (ds : List D) → count (λ _. false) ds ≡ 0
  count_false [] = refl
  count_false (d ∷ ds) = omega (arith, count_false ds)

  pub count_split :
      (p q : D → Bool) (ds : List D)
      → count p ds ≡ count (λ d. p d && q d) ds + count (λ d. p d && not (q d)) ds
  count_split p q [] = refl
  count_split p q (d ∷ ds) = ground (arith, count_split p q ds)

  pub find_none : (q : D → Bool) (ds : List D) → find q ds ≡ none → count q ds ≡ 0
  find_none q [] h = refl
  find_none q (d ∷ ds) h = ground (arith, find_none q ds)

  pub find_passes : (q : D → Bool) (ds : List D) (d : D) → find q ds ≡ some d → q d ≡ true
  find_passes q [] d h = cc
  find_passes q (x ∷ ds) d h = ground (arith, find_passes q ds d)

  pub find_counted :
      (q p : D → Bool) (ds : List D) (d : D) → find q ds ≡ some d → p d ≡ true → 0 < count p ds
  find_counted q p [] d h e = absurd (cc)
  find_counted q p (x ∷ ds) d h e = ground (arith, find_counted q p ds d)

  pub count-filter :
      (p q : D → Bool) (ds : List D) → count p (filter q ds) ≡ count (λ d. p d && q d) ds
  count-filter p q [] = refl
  count-filter p q (d ∷ ds) = ground (arith, count-filter p q ds)

  pub count-take-le : (p : D → Bool) (n : ℕ) (ds : List D) → count p (take n ds) ≤ count p ds
  count-take-le p zero ds = omega arith
  count-take-le p (suc n) [] = omega arith
  count-take-le p (suc n) (d ∷ ds) = omega (arith, count-take-le p n ds)

  pub length-take : (n : ℕ) (ds : List D) → length (take n ds) ≡ min n (length ds)
  length-take zero ds = omega arith
  length-take (suc n) [] = omega arith
  length-take (suc n) (d ∷ ds) = omega (arith, length-take n ds)

  pub length-filter : (q : D → Bool) (ds : List D) → length (filter q ds) ≡ count q ds
  length-filter q [] = refl
  length-filter q (d ∷ ds) = ground (arith, length-filter q ds)

  pub take_all : (n : ℕ) (ds : List D) → length ds ≤ n → take n ds ≡ ds
  take_all zero [] h = refl
  take_all zero (d ∷ ds) h = absurd (omega arith)
  take_all (suc n) [] h = refl
  take_all (suc n) (d ∷ ds) h = ap (◌∷◌ d) (take_all n ds (omega arith))

  abbrev pub update_first : (D → Bool) → (D → D) → List D → List D
  update_first q f [] = []
  update_first q f (d ∷ ds) = if q d then f d ∷ ds else d ∷ update_first q f ds

  abbrev pub delete_first : (D → Bool) → List D → List D
  delete_first q [] = []
  delete_first q (d ∷ ds) = if q d then ds else d ∷ delete_first q ds

  abbrev pub update_all : (D → Bool) → (D → D) → List D → List D
  update_all q f = map (λ d. if q d then f d else d)

  pub count-update_all :
      (p q : D → Bool) (f : D → D) (ds : List D)
      → count p (update_all q f ds) ≡ count (λ d. p (if q d then f d else d)) ds
  count-update_all p q f [] = refl
  count-update_all p q f (d ∷ ds) = omega (arith, count-update_all p q f ds)

  update_none : (q : D → Bool) (f : D → D) (ds : List D) → count q ds ≡ 0 → update_all q f ds ≡ ds
  update_none q f [] h = refl
  update_none q f (d ∷ ds) h = ground (arith, update_none q f ds)

  pub update_first_lem :
      (q : D → Bool) (f : D → D) (ds : List D)
      → count q ds ≤ 1
      → update_first q f ds ≡ update_all q f ds
  update_first_lem q f [] h = refl
  update_first_lem q f (d ∷ ds) h = ground (arith, update_first_lem q f ds, update_none q f ds)

  delete_none : (q : D → Bool) (ds : List D) → count q ds ≡ 0 → filter (λ d. not (q d)) ds ≡ ds
  delete_none q [] h = refl
  delete_none q (d ∷ ds) h = ground (arith, delete_none q ds)

  pub delete_first_lem :
      (q : D → Bool) (ds : List D) → count q ds ≤ 1 → delete_first q ds ≡ filter (λ d. not (q d)) ds
  delete_first_lem q [] h = refl
  delete_first_lem q (d ∷ ds) h = ground (arith, delete_first_lem q ds, delete_none q ds)

  abbrev pub upsert : (D → Bool) → D → List D → List D × Bool
  upsert q d ds = if any q ds then (ds, false) else (d ∷ ds, true)

  pub upsert_old :
      (q : D → Bool) (d : D) (ds : List D) → 0 < count q ds → upsert q d ds ≡ (ds, false)
  upsert_old q d ds h = rw (any-count q ds, lt→ltb 0 (count q ds) h)

  pub upsert_new :
      (q : D → Bool) (d : D) (ds : List D) → count q ds ≡ 0 → upsert q d ds ≡ (d ∷ ds, true)
  upsert_new q d ds h = rw (any-count q ds, h)

  -- `mint` stands for the generator of the _id values.
  abbrev pub memory : (List D → ℕ) → Collection D (List D)
  memory mint = record {
    count = count;
    find_one = find;
    find_all = filter;
    find = λ q n ds. take n (filter q ds);
    new_id = mint;
    insert_one = ◌∷◌;
    upsert_one = upsert;
    update_one = update_first;
    update_many = update_all;
    find_one_and_update = λ q f ds. (Option.map f (find q ds), update_first q f ds);
    delete_one = delete_first;
    delete_many = λ q ds. (filter (λ d. not (q d)) ds, count q ds);
    count_false = count_false;
    count_split = count_split;
    find_one_none = find_none;
    find_one_some = λ q ds d h. (find_passes q ds d h, λ p e. find_counted q p ds d h e);
    count-find_all = count-filter;
    count-find-le = λ p q n ds. omega (arith, count-take-le p n (filter q ds), count-filter p q ds);
    length-find = λ q n ds h. omega (arith, length-take n (filter q ds), length-filter q ds);
    count-find = λ p q n ds h.
        ap (count p) (take_all n (filter q ds) (omega (arith, length-filter q ds)))
        ∙ count-filter p q ds;
    count-insert_one = λ p d ds. refl;
    upsert_one_old = upsert_old;
    upsert_one_new = λ q d ds h. (
      ap (λ (r : List D × Bool). r.1) (upsert_new q d ds h),
      λ p. ap (λ (r : List D × Bool). count p r.0) (upsert_new q d ds h),
    );
    count-update_one =
        λ p q f ds h. ap (count p) (update_first_lem q f ds h) ∙ count-update_all p q f ds;
    count-update_many = count-update_all;
    find_one_and_update_lem = λ q f ds h. refl;
    count-delete_one =
        λ p q ds h. ap (count p) (delete_first_lem q ds h) ∙ count-filter p (λ d. not (q d)) ds;
    count-delete_many = λ p q ds. count-filter p (λ d. not (q d)) ds;
    deleted_count = λ q ds. refl;
  }
