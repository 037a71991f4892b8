-- ===== src/Redis/Scan.antt =====
-- scanWithPagination and countWithMatch of app/lib/redis.js. What SCAN replies at a cursor, with the
-- pattern and the type that are asked for, is an argument; a scan ends when the cursor is 0 again.
use sama_server.Prelude.{
  ℕ, zero, suc, ◌+◌, ◌-◌, ◌==◌, ◌≡◌, ◌≤◌, refl, sym, ap, ◌∙◌, List, [], ◌∷◌, ◌++◌, Option, none,
  some, if◌then◌else◌, leb, length, length-append, take, drop, arith, Bool-cases, inl, inr, ◌⊎◌,
  Option-cases, some_inj,
}
use sama_server.Prelude.Text.{Text}

pub record ScanReply : Type 0 where
  pub cursor : ℕ
  pub keys : List Text

-- `return results` inside the loop over the keys of a reply, or the variables after it
pub data Scanned : Type 0 where
  full : List Text → Scanned
  going : (results : List Text) (scanned : ℕ) → Scanned

module _ (offset limit : ℕ) where
  unfoldable pub take_keys : List Text → List Text → ℕ → Scanned
  take_keys [] results scanned = going results scanned
  take_keys (item ∷ items) results scanned =
      let more = results ++ item ∷ [] in
      let pushed = take_keys items more (suc scanned) in
      let skipped = take_keys items results (suc scanned) in
      if leb offset scanned then if leb limit (length more) then full more else pushed else skipped

  module _ (scan : ℕ → ScanReply) where
    -- The do-while loop, with at most so many replies.
    unfoldable pub scan_loop : ℕ → ℕ → List Text → ℕ → Option (List Text)
    scan_loop zero cursor results scanned = none
    scan_loop (suc n) cursor results scanned = elim (take_keys (scan cursor).keys results scanned) [
      | full found ↦ some found
      | going found seen ↦
          let rest = scan_loop n (scan cursor).cursor found seen in
          if (scan cursor).cursor == 0 then some found else rest
    ]

    unfoldable pub scan_with_pagination : ℕ → Option (List Text)
    scan_with_pagination fuel = scan_loop fuel 0 [] 0

module _ (scan : ℕ → ScanReply) where
  unfoldable pub count_loop : ℕ → ℕ → ℕ → Option ℕ
  count_loop zero cursor matched = none
  count_loop (suc n) cursor matched =
      let counted = matched + length (scan cursor).keys in
      let rest = count_loop n (scan cursor).cursor counted in
      if (scan cursor).cursor == 0 then some counted else rest

  unfoldable pub count_with_match : ℕ → Option ℕ
  count_with_match fuel = count_loop fuel 0 0

  -- All keys of a scan that ends within so many replies.
  unfoldable pub all_keys : ℕ → ℕ → Option (List Text)
  all_keys zero cursor = none
  all_keys (suc n) cursor =
      let rest = all_keys n (scan cursor).cursor in
      if (scan cursor).cursor == 0
      then some (scan cursor).keys
      else elim rest [ none ↦ none | some ks ↦ some ((scan cursor).keys ++ ks) ]

abbrev pub at_least_one : ℕ → ℕ
at_least_one zero = 1
at_least_one (suc n) = suc n

append_nil : (xs : List Text) → xs ++ [] ≡ xs
append_nil [] = refl
append_nil (x ∷ xs) = ap (λ ys. x ∷ ys) (append_nil xs)

append_assoc : (xs ys zs : List Text) → (xs ++ ys) ++ zs ≡ xs ++ (ys ++ zs)
append_assoc [] ys zs = refl
append_assoc (x ∷ xs) ys zs = ap (λ us. x ∷ us) (append_assoc xs ys zs)

pub drop_nil : (n : ℕ) → drop {A = Text} n [] ≡ []
drop_nil zero = refl
drop_nil (suc n) = refl

pub take_nil : (n : ℕ) → take {A = Text} n [] ≡ []
take_nil zero = refl
take_nil (suc n) = refl

one_left : (m : ℕ) → m ≤ 1 → at_least_one m ≡ 1
one_left zero h = refl
one_left (suc m) h = omega arith

more_left : (m n : ℕ) → m ≡ suc (suc n) → at_least_one m ≡ suc (at_least_one (suc n))
more_left zero n h = omega arith
more_left (suc m) n h = omega arith

left_all : (n : ℕ) → n - 0 ≡ n
left_all n = omega arith

Scanned-cases :
    (t : Scanned)
    → ((f : List Text) × (t ≡ full f)) ⊎ ((f : List Text) × ((n : ℕ) × (t ≡ going f n)))
Scanned-cases (full f) = inl (f, refl)
Scanned-cases (going f n) = inr (f, (n, refl))

module _ (offset limit : ℕ) where
  -- what is left to find of the keys xs
  page_of : List Text → ℕ → List Text → List Text
  page_of results scanned xs =
      results ++ take (at_least_one (limit - length results)) (drop (offset - scanned) xs)

  page_nil : (results : List Text) (scanned : ℕ) → page_of results scanned [] ≡ results
  unfolding page_of
  page_nil results scanned =
      rw (drop_nil (offset - scanned), take_nil (at_least_one (limit - length results)))
        (append_nil results)

  page_full :
      (results : List Text) (scanned : ℕ) (item : Text) (xs : List Text)
      → offset ≤ scanned
      → limit ≤ suc (length results)
      → page_of results scanned (item ∷ xs) ≡ results ++ item ∷ []
  unfolding page_of
  page_full results scanned item xs o l =
      let start : offset - scanned ≡ 0 = omega arith in
      rw (start, one_left (limit - length results) (omega arith)) refl

  page_push :
      (results : List Text) (scanned : ℕ) (item : Text) (xs : List Text)
      → offset ≤ scanned
      → suc (suc (length results)) ≤ limit
      → page_of results scanned (item ∷ xs) ≡ page_of (results ++ item ∷ []) (suc scanned) xs
  unfolding page_of
  page_push results scanned item xs o l =
      let start : offset - scanned ≡ 0 = omega arith in
      let after : offset - suc scanned ≡ 0 = omega arith in
      let left = limit - suc (suc (length results)) in
      let need : limit - length results ≡ suc (suc left) = omega arith in
      let fewer : limit - length (results ++ item ∷ []) ≡ suc left =
        omega (arith, length-append results (item ∷ [])) in
      rw (start, after, need, fewer) (sym (append_assoc results (item ∷ []) (take (suc left) xs)))

  page_skip :
      (results : List Text) (scanned : ℕ) (item : Text) (xs : List Text)
      → suc scanned ≤ offset
      → page_of results scanned (item ∷ xs) ≡ page_of results (suc scanned) xs
  unfolding page_of
  page_skip results scanned item xs o =
      let start : offset - scanned ≡ suc (offset - suc scanned) = omega arith in rw start refl

  resume : Scanned → List Text → List Text
  resume (full found) more = found
  resume (going found seen) more = page_of found seen more

  resume-take_keys :
      (items results : List Text) (scanned : ℕ) (more : List Text)
      → resume (take_keys offset limit items results scanned) more
        ≡ page_of results scanned (items ++ more)
  unfolding resume take_keys
  resume-take_keys [] results scanned more = refl
  resume-take_keys (item ∷ items) results scanned more = elim (Bool-cases (leb offset scanned)) [
    | inr before ↦ rw before (
        resume-take_keys items results (suc scanned) more
        ∙ sym (page_skip results scanned item (items ++ more) (ground arith)))
    | inl from ↦ elim (Bool-cases (leb limit (length (results ++ item ∷ [])))) [
      | inl enough ↦
          rw (from, enough)
            (sym (
              page_full results scanned item (items ++ more) (ground arith)
                (ground (arith, length-append results (item ∷ [])))))
      | inr fewer ↦
          rw (from, fewer)
            (resume-take_keys items (results ++ item ∷ []) (suc scanned) more
              ∙ sym (
                  page_push results scanned item (items ++ more) (ground arith)
                    (ground (arith, length-append results (item ∷ [])))))
    ]
  ]

  scan_loop_lem :
      (scan : ℕ → ScanReply) (fuel cursor : ℕ) (results : List Text) (scanned : ℕ) (ks : List Text)
      → all_keys scan fuel cursor ≡ some ks
      → scan_loop offset limit scan fuel cursor results scanned ≡ some (page_of results scanned ks)
  unfolding all_keys scan_loop resume
  scan_loop_lem scan zero cursor results scanned ks h = cc
  scan_loop_lem scan (suc n) cursor results scanned ks h =
      let reply = scan cursor in
      elim (Bool-cases (reply.cursor == 0)) [
        | inl ended ↦
            let ks_eq : ks ≡ reply.keys ++ [] =
              sym (some_inj reply.keys ks (rw ended at h)) ∙ sym (append_nil reply.keys) in
            let page = resume-take_keys reply.keys results scanned [] in
            elim (Scanned-cases (take_keys offset limit reply.keys results scanned)) [
              | inl (found, e) ↦ rw (scan_loop, e, ks_eq) (ap some (rw e at page))
              | inr (found, (seen, e)) ↦
                  rw (scan_loop, e, ended, ks_eq)
                    (ap some (sym (page_nil found seen) ∙ (rw e at page)))
            ]
        | inr on ↦ elim (Option-cases (all_keys scan n reply.cursor)) [
          | inl none_there ↦ absurd (cc (rw (on, none_there) at h))
          | inr (rest, there) ↦
              let ks_eq : ks ≡ reply.keys ++ rest =
                sym (some_inj (reply.keys ++ rest) ks (rw (on, there) at h)) in
              let page = resume-take_keys reply.keys results scanned rest in
              elim (Scanned-cases (take_keys offset limit reply.keys results scanned)) [
                | inl (found, e) ↦ rw (scan_loop, e, ks_eq) (ap some (rw e at page))
                | inr (found, (seen, e)) ↦
                    rw (scan_loop, e, on, ks_eq)
                      (scan_loop_lem scan n reply.cursor found seen rest there
                        ∙ ap some (rw e at page))
              ]
        ]
      ]

  -- Where a scan ends within so many replies, the page is found within as many: its keys are those
  -- after the offset, in the order of the replies, as many as the limit, but one for a limit of 0.
  pub scan_with_pagination_lem :
      (scan : ℕ → ScanReply) (fuel : ℕ) (ks : List Text)
      → all_keys scan fuel 0 ≡ some ks
      → scan_with_pagination offset limit scan fuel
        ≡ some (take (at_least_one limit) (drop offset ks))
  unfolding scan_with_pagination page_of
  scan_with_pagination_lem scan fuel ks h =
      scan_loop_lem scan fuel 0 [] 0 ks h ∙ (rw (left_all limit, left_all offset) refl)

count_loop_lem :
    (scan : ℕ → ScanReply) (fuel cursor matched : ℕ) (ks : List Text)
    → all_keys scan fuel cursor ≡ some ks
    → count_loop scan fuel cursor matched ≡ some (matched + length ks)
unfolding all_keys count_loop
count_loop_lem scan zero cursor matched ks h = cc
count_loop_lem scan (suc n) cursor matched ks h =
    let reply = scan cursor in
    elim (Bool-cases (reply.cursor == 0)) [
      | inl ended ↦ rw (count_loop, ended, sym (some_inj reply.keys ks (rw ended at h))) refl
      | inr on ↦ elim (Option-cases (all_keys scan n reply.cursor)) [
        | inl none_there ↦ absurd (cc (rw (on, none_there) at h))
        | inr (rest, there) ↦
            let ks_eq : ks ≡ reply.keys ++ rest =
              sym (some_inj (reply.keys ++ rest) ks (rw (on, there) at h)) in
            rw (count_loop, on, ks_eq, length-append reply.keys rest)
              (count_loop_lem scan n reply.cursor (matched + length reply.keys) rest there
                ∙ ap some (omega arith))
      ]
    ]

-- Where a scan ends within so many replies, the count is the number of keys in its replies.
pub count_with_match_lem :
    (scan : ℕ → ScanReply) (fuel : ℕ) (ks : List Text)
    → all_keys scan fuel 0 ≡ some ks
    → count_with_match scan fuel ≡ some (length ks)
unfolding count_with_match
count_with_match_lem scan fuel ks h = count_loop_lem scan fuel 0 0 ks h ∙ ap some (omega arith)
