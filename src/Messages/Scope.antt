-- ===== src/Messages/Scope.antt =====
-- What the queries by message ids find, delete and hide.
use sama_server.Prelude.{
  ℕ, ◌≤◌, ◌==◌, ◌≡◌, refl, sym, ◌∙◌, Bool, false, not, ◌&&◌, List, [], ◌∷◌, map, if◌then◌else◌,
  includes, length, any, any-count, count, arith, Bool-cases, inl, inr, ==_iff,
}
use sama_server.Mongo.Counting.{count_zero, count_mono}
use sama_server.Errors.{ok, err, forbidden}
use sama_server.Store.{Message, Driver, Store}
use sama_server.Repositories.Messages.{find_all_by_ids}
use sama_server.Messages.{may_delete, find_messages_by_ids, validate_messages_for_delete}

abbrev pub ids_of : List Message → List ℕ
ids_of = map (λ m. m.id)

includes-ids_of : (k : ℕ) (ms : List Message) → includes k (ids_of ms) ≡ any (λ m. m.id == k) ms
includes-ids_of k [] = refl
includes-ids_of k (m ∷ ms) = rw (includes-ids_of k ms)

excluded : (k i : ℕ) (ids : List ℕ) → includes k ids ≡ false → (i == k && includes i ids) ≡ false
excluded k i ids h = elim (Bool-cases (i == k)) [
  | inl e ↦ rw ((==_iff i k).0 e, h) (ground arith)
  | inr e ↦ rw e refl
]

none_missing :
    (xs ms : List Message)
    → count (λ m. not (includes m.id (ids_of xs))) ms ≡ 0
    → any (λ m. not (includes m.id (ids_of xs))) ms ≡ false
none_missing xs ms h = any-count (λ m. not (includes m.id (ids_of xs))) ms ∙ rw h

module _ (db : Driver) where
  open db use {messages}

  -- No two messages have the same id.
  abbrev pub HasUniqueIds : Store db → Type 0
  HasUniqueIds s = (k : ℕ) → messages.count (λ m. m.id == k) s.messages ≤ 1

  count-ids-le :
      (ids : List ℕ) (s : Store db)
      → HasUniqueIds s
      → messages.count (λ m. includes m.id ids) s.messages ≤ length ids
  count-ids-le [] s u = omega (arith, messages.count_false s.messages)
  count-ids-le (x ∷ xs) s u = omega (
    arith,
    messages.count_split (λ m. includes m.id (x ∷ xs)) (λ m. m.id == x) s.messages,
    count_mono messages (λ m. includes m.id (x ∷ xs) && m.id == x) (λ m. m.id == x) s.messages
        (λ m h. ground arith),
    count_mono messages (λ m. includes m.id (x ∷ xs) && not (m.id == x)) (λ m. includes m.id xs)
        s.messages (λ m h. ground arith),
    u x,
    count-ids-le xs s u,
  )

  -- The messages found are among those asked for.
  pub found_ids :
      (k : ℕ) (ids : List ℕ) (s : Store db)
      → includes k ids ≡ false
      → includes k (ids_of (find_messages_by_ids db ids s)) ≡ false
  unfolding find_messages_by_ids find_all_by_ids
  found_ids k [] s h = refl
  found_ids k (x ∷ xs) s h =
      let ids = x ∷ xs in
      let found = messages.find (λ m. includes m.id ids) (length ids) s.messages in
      let few =
        messages.count-find-le (λ m. m.id == k) (λ m. includes m.id ids) (length ids) s.messages in
      let zero' : messages.count (λ m. m.id == k && includes m.id ids) s.messages ≡ 0 =
        count_zero messages s.messages (λ m. excluded k m.id ids h) in
      includes-ids_of k found ∙ (any-count (λ m. m.id == k) found ∙ ground arith)

  -- With unique ids all messages that are asked for are found.
  pub found_all :
      (p : Message → Bool) (ids : List ℕ) (s : Store db)
      → HasUniqueIds s
      → count p (find_messages_by_ids db ids s)
        ≡ messages.count (λ m. p m && includes m.id ids) s.messages
  unfolding find_messages_by_ids find_all_by_ids
  found_all p [] s u = sym (count_zero messages s.messages (λ m. ground arith))
  found_all p (x ∷ xs) s u =
      messages.count-find p (λ m. includes m.id (x ∷ xs)) (length (x ∷ xs)) s.messages
        (count-ids-le (x ∷ xs) s u)

  -- The check passes exactly when every message passes its test, and writes nothing.
  pub validate_messages_for_delete_lem :
      (ms : List Message) (cid org uid : ℕ) (author : Bool) (s : Store db)
      → validate_messages_for_delete db ms cid org uid author s ≡ (
          if any (λ m. not (may_delete cid org uid author m)) ms
          then (err forbidden, s)
          else (ok tt, s))
  unfolding validate_messages_for_delete
  validate_messages_for_delete_lem [] cid org uid author s = refl
  validate_messages_for_delete_lem (m ∷ ms) cid org uid author s =
      elim (Bool-cases (may_delete cid org uid author m)) [
        | inl e ↦ rw e (validate_messages_for_delete_lem ms cid org uid author s)
        | inr e ↦ rw e refl
      ]
