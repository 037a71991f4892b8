-- ===== src/Operations/MessageCreate/Written.antt =====
-- What the steps that store a new message leave: its insertion, the participants restored, an answer.
use sama_server.Prelude.{
  ℕ, ◌+◌, ◌≡◌, ◌≤◌, refl, sym, ap, subst, Bool, false, not, List, [], ◌∷◌, if◌then◌else◌, arith,
  Bool-cases, Option-cases, inl, inr,
}
use sama_server.Errors.{ok, bind_ok, returned, require, throw, participants_limit, type_error}
use sama_server.Store.{User, Conversation, Message, Driver, Store, Config, exceeds, plus}
use sama_server.Repositories.Conversations.{is_private, update_last_activity}
use sama_server.Conversation.{restore_private_conversation, add_participants, current_count}
use sama_server.Conversation.Stored.{IsStored, update_one-IsStored}
use sama_server.Conversation.Members.{IsSound}
use sama_server.Conversation.Adding.{
  add_participants-IsSound, add_participants-id, add_participants-messages,
}
use sama_server.Operations.MessageCreate.Storing.{
  MessageParams, Handled, unchanged, replaced, answered, message_of, insert_message,
  restore_participants, insert_answer,
}

module _ (db : Driver) where
  open db use {users, messages, conversations, participants}

  -- A sound conversation with the id of the one of the request.
  abbrev pub IsKept : ℕ → Store db → Type 0
  IsKept cid s = (conv : Conversation) × ((conv.id ≡ cid) × IsSound db conv s)

  -- No message is lost.
  abbrev pub Keeps : Store db → Store db → Type 0
  Keeps s s' = (p : Message → Bool) → messages.count p s.messages ≤ messages.count p s'.messages

  pub inserted :
      (user : User) (conv : Conversation) (params : MessageParams) (t now : ℕ) (s s' : Store db)
      (m : Message)
      → insert_message db user conv params t now s ≡ (ok m, s')
      → ((m.from ≡ user.id) × (m.cid ≡ conv.id))
        × (((p : Message → Bool)
              → messages.count p s.messages + (if p m then 1 else 0) ≡ messages.count p s'.messages)
            × (((other : Conversation) → IsSound db other s → IsSound db other s')))
  unfolding insert_message
  inserted user conv params t now s s' m h =
      let new = message_of user conv params (messages.new_id s.messages) t now in
      let (object, here) =
        returned new m (record s { messages = messages.insert_one new s.messages }) s' h in
      (
        ((ap (λ (x : Message). x.from) (sym object)), ap (λ (x : Message). x.cid) (sym object)),
        (
          (λ p. rw (← object, ← here) (omega (arith, messages.count-insert_one p new s.messages))),
          λ other v.
              subst (λ z. IsSound db other z) here
                (record {
                  stored = v.stored;
                  unique = v.unique;
                  counted = v.counted;
                  owned = v.owned;
                }),
        ),
      )

  pub restored_private :
      (cfg : Config) (conv : Conversation) (s s' : Store db) (r : List ℕ × Conversation)
      → IsSound db conv s
      → restore_private_conversation db cfg conv s ≡ (ok r, s')
      → IsKept conv.id s' × (s'.messages ≡ s.messages)
  unfolding restore_private_conversation
  restored_private cfg conv s s' r v h = elim (Option-cases conv.opponent_id) [
    | inl e ↦
        let (_, _, _, end) =
          bind_ok
            (require (not (exceeds (plus (current_count db conv false s) 2) cfg.max_participants))
              participants_limit s)
            (λ _. throw {A = List ℕ × Conversation} type_error) r s'
            (rw (restore_private_conversation, e) at h) in
        absurd (cc end)
    | inr (opponent, e) ↦
        let run : add_participants db cfg conv (conv.owner_id ∷ opponent ∷ []) false s
            ≡ (ok r, s') =
          rw (restore_private_conversation, e) at h in
        (
          (
            r.1,
            (
              add_participants-id db cfg conv (conv.owner_id ∷ opponent ∷ []) s s' r.0 r.1 v run,
              add_participants-IsSound db cfg conv (conv.owner_id ∷ opponent ∷ []) s s' r.0 r.1 v
                  run,
            ),
          ),
          add_participants-messages db cfg conv (conv.owner_id ∷ opponent ∷ []) false s s' r run,
        )
  ]

  pub restored :
      (cfg : Config) (conv : Conversation) (s s' : Store db) (u : Unit {0})
      → IsSound db conv s
      → restore_participants db cfg conv s ≡ (ok u, s')
      → IsKept conv.id s' × (s'.messages ≡ s.messages)
  unfolding restore_participants
  restored cfg conv s s' u v h = elim (Bool-cases (is_private conv.kind)) [
    | inr e ↦
        let here = (returned tt u s s' (rw (restore_participants, e) at h)).1 in
        (
          (conv, (refl, subst (λ z. IsSound db conv z) here v)),
          sym (ap (λ (z : Store db). z.messages) here),
        )
    | inl e ↦
        let (r, s1, run, end) =
          bind_ok (restore_private_conversation db cfg conv s) _ u s'
            (rw (restore_participants, e) at h) in
        let here = (returned tt u s1 s' end).1 in
        subst (λ (z : Store db). IsKept conv.id z × (z.messages ≡ s.messages)) here
          (restored_private cfg conv s s1 r v run)
  ]

  pub answered-Keeps :
      (conv : Conversation) (params : MessageParams) (t now cid : ℕ) (handled : Handled)
      (s s' : Store db) (u : Unit {0})
      → IsKept cid s
      → insert_answer db conv params t now handled s ≡ (ok u, s')
      → IsKept cid s' × Keeps s s'
  unfolding insert_answer
  answered-Keeps conv params t now cid unchanged s s' u v h =
      let here = (returned tt u s s' h).1 in
      subst (λ (z : Store db). IsKept cid z × Keeps s z) here (v, λ p. omega arith)
  answered-Keeps conv params t now cid (replaced b) s s' u v h =
      let here = (returned tt u s s' h).1 in
      subst (λ (z : Store db). IsKept cid z × Keeps s z) here (v, λ p. omega arith)
  answered-Keeps conv params t now cid (answered bot b) s s' u (c, (same, v)) h =
      let (m, s1, run, end) =
        bind_ok (insert_message db bot conv (record params { body = b }) t now s) _ u s' h in
      let (_, (counts, sound)) = inserted bot conv (record params { body = b }) t now s s1 m run in
      let here = (returned tt u s1 s' end).1 in
      subst (λ (z : Store db). IsKept cid z × Keeps s z) here
        ((c, (same, sound c v)), λ p. omega (arith, counts p))

  pub touched :
      (cid time : ℕ) (s : Store db)
      → IsKept cid s
      → IsKept cid
          (record s { conversations = update_last_activity conversations cid time s.conversations })
  unfolding update_last_activity
  touched cid time s (c, (same, v)) = (
    record c { updated_at = time },
    (
      same,
      record {
        stored =
            subst
              (λ i.
                IsStored conversations (record c { updated_at = time })
                  (update_last_activity conversations i time s.conversations))
              same
              (update_one-IsStored conversations (λ d. record d { updated_at = time }) c
                s.conversations (λ d. refl) v.stored);
        unique = v.unique;
        counted = v.counted;
        owned = v.owned;
      },
    ),
  )
