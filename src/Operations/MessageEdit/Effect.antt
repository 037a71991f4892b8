-- ===== src/Operations/MessageEdit/Effect.antt =====
-- Whose messages an edition can change.
use Prim.Native.String.{String}
use sama_server.Prelude.{
  ℕ, ◌==◌, ◌≡◌, ◌⊎◌, refl, ◌∙◌, Bool, true, false, not, ◌&&◌, Option, some, arith, if◌then◌else◌,
  Bool-cases, inl, inr, Option-cases, any,
}
use sama_server.Mongo.Counting.{count_ext, count_mono}
use sama_server.Store.{Message, Driver, Store}
use sama_server.Repositories.Conversations.{find_by_id as find_conversation}
use sama_server.Repositories.Messages.{find_by_id, update_body}
use sama_server.Messages.{access_to, has_access_to_message}
use sama_server.Messages.Scope.{HasUniqueIds}
use sama_server.Operations.MessageEdit.{edit_message, check_author, report}

abbrev pub edited : Option String → ℕ → Message → Message
edited body now m = record m { body = body; updated_at = now }

module _ (db : Driver) (same : ℕ → ℕ → Bool) where
  open db use {messages}

  -- An edition either leaves the store as it was, or the caller wrote the message with that id, and
  -- the body of it is the write that is made.
  edit_message_cases :
      (uid mid : ℕ) (body : Option String) (now : ℕ) (s : Store db)
      → ((edit_message db same uid mid body now s).1 ≡ s)
        ⊎ ((m : Message) × (find_by_id messages mid s.messages ≡ some m)
            × ((m.from == uid) ≡ true)
            × ((edit_message db same uid mid body now s).1
                ≡ record s { messages = update_body messages mid body now s.messages }))
  unfolding edit_message check_author report has_access_to_message access_to
  edit_message_cases uid mid body now s = elim (Option-cases (find_by_id messages mid s.messages)) [
    | inl e ↦ inl (rw e refl)
    | inr (m, e) ↦ elim (Bool-cases (any (λ x. same x uid) m.deleted_for)) [
      | inl gone ↦ inl (rw (e, gone) refl)
      | inr there ↦ elim (Bool-cases (m.from == uid)) [
        | inr other ↦ inl (rw (e, there, other) refl)
        | inl own ↦ inr (
          m,
          e,
          own,
          elim (Option-cases (find_conversation db.conversations m.cid s.conversations)) [
            | inl c ↦ rw (e, there, own, c) refl
            | inr (conv, c) ↦ rw (e, there, own, c) refl
          ],
        )
      ]
    ]
  ]

  author_only :
      (uid mid : ℕ) (s : Store db) (m : Message)
      → HasUniqueIds db s
      → find_by_id messages mid s.messages ≡ some m
      → (m.from == uid) ≡ true
      → messages.count (λ d. d.id == mid && not (d.from == uid)) s.messages ≡ 0
  unfolding find_by_id
  author_only uid mid s m u e own =
      let (passes, counts) = messages.find_one_some (λ d. d.id == mid) s.messages m e in
      let mine = counts (λ d. d.id == mid && d.from == uid) (rw (passes, own) refl) in
      omega (arith, u mid, messages.count_split (λ d. d.id == mid) (λ d. d.from == uid) s.messages)

  -- Whatever the outcome, an edition changes no message of another author: a query for messages that
  -- the caller did not write counts as before, when no two messages share an id.
  pub edit_message-others :
      (uid mid : ℕ) (body : Option String) (now : ℕ) (r : Message → Bool) (s : Store db)
      → HasUniqueIds db s
      → ((m : Message) → (m.from == uid) ≡ true → r m ≡ false)
      → messages.count r (edit_message db same uid mid body now s).1.messages
        ≡ messages.count r s.messages
  unfolding update_body
  edit_message-others uid mid body now r s u others = elim (edit_message_cases uid mid body now s) [
    | inl kept ↦ rw kept refl
    | inr (m, e, own, written) ↦
        let after = λ (d : Message). r (if d.id == mid then edited body now d else d) in
        let foreign = λ (d : Message). d.id == mid && not (d.from == uid) in
        rw written (
          messages.count-update_one r (λ d. d.id == mid) (edited body now) s.messages (u mid)
          ∙ omega (
            arith,
            author_only uid mid s m u e own,
            messages.count_split after foreign s.messages,
            messages.count_split r foreign s.messages,
            count_mono messages (λ d. after d && foreign d) foreign s.messages
                (λ d h. ground arith),
            count_mono messages (λ d. r d && foreign d) foreign s.messages (λ d h. ground arith),
            count_ext messages {p = λ d. after d && not (foreign d)}
                {q = λ d. r d && not (foreign d)} s.messages
                (λ d. kept d (Bool-cases (d.id == mid)) (Bool-cases (d.from == uid))),
          ))
  ]
    where
      kept :
          (d : Message)
          → ((d.id == mid) ≡ true) ⊎ ((d.id == mid) ≡ false)
          → ((d.from == uid) ≡ true) ⊎ ((d.from == uid) ≡ false)
          → (r (if d.id == mid then edited body now d else d)
              && not (d.id == mid && not (d.from == uid)))
            ≡ (r d && not (d.id == mid && not (d.from == uid)))
      kept d (inl e) (inl own) = rw (e, own, others d own, others (edited body now d) own) refl
      kept d (inl e) (inr f) = rw (e, f) (ground arith)
      kept d (inr e) _ = rw e refl
