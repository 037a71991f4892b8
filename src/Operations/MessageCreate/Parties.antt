-- ===== src/Operations/MessageCreate/Parties.antt =====
-- Who takes part in the conversation of a new message once it is stored.
use sama_server.Prelude.{
  ℕ, ◌==◌, ◌≡◌, ◌≤◌, sym, ap, ◌∙◌, false, not, ◌&&◌, ◌||◌, List, [], ◌∷◌, some, if◌then◌else◌,
  includes, arith, Bool-cases, Option-cases, inl, inr,
}
use sama_server.Errors.{ok, bind_ok, returned, require, throw, participants_limit, type_error}
use sama_server.Store.{User, Conversation, Message, Driver, Store, Config, exceeds, plus}
use sama_server.Repositories.Conversations.{is_private, is_some_eq}
use sama_server.Conversation.{restore_private_conversation, add_participants, current_count}
use sama_server.Conversation.Members.{membership, IsSound}
use sama_server.Conversation.Adding.{add_participants-members}
use sama_server.Operations.MessageCreate.Storing.{
  MessageParams, Handled, unchanged, replaced, answered, insert_message, restore_participants,
  insert_answer,
}

once :
    (n : ℕ) (a b : ℕ) (v : ℕ)
    → n ≤ 1
    → (if n == 0 && includes v (a ∷ b ∷ []) then 1 else n)
      ≡ (if a == v || is_some_eq (some b) v then 1 else n)
once n a b v h = ground arith

-- How often a user takes part once the two of a private conversation, its owner and its opponent, are
-- participants of it, when it was `before` often.
abbrev pub with_parties : Conversation → ℕ → ℕ → ℕ
with_parties conv v before =
    if is_private conv.kind && (conv.owner_id == v || is_some_eq conv.opponent_id v)
    then 1
    else before

module _ (db : Driver) where
  pub inserted_participants :
      (user : User) (conv : Conversation) (params : MessageParams) (t now : ℕ) (s s' : Store db)
      (m : Message)
      → insert_message db user conv params t now s ≡ (ok m, s')
      → s'.participants ≡ s.participants
  unfolding insert_message
  inserted_participants user conv params t now s s' m h =
      sym (ap (λ (z : Store db). z.participants) (returned _ m _ s' h).1)

  pub answered_participants :
      (conv : Conversation) (params : MessageParams) (t now : ℕ) (handled : Handled)
      (s s' : Store db) (u : Unit {0})
      → insert_answer db conv params t now handled s ≡ (ok u, s')
      → s'.participants ≡ s.participants
  unfolding insert_answer
  answered_participants conv params t now unchanged s s' u h =
      sym (ap (λ (z : Store db). z.participants) (returned tt u s s' h).1)
  answered_participants conv params t now (replaced b) s s' u h =
      sym (ap (λ (z : Store db). z.participants) (returned tt u s s' h).1)
  answered_participants conv params t now (answered bot b) s s' u h =
      let (m, s1, run, end) =
        bind_ok (insert_message db bot conv (record params { body = b }) t now s) _ u s' h in
      sym (ap (λ (z : Store db). z.participants) (returned tt u s1 s' end).1)
      ∙ inserted_participants bot conv (record params { body = b }) t now s s1 m run

  -- A private conversation without an opponent is not restored.
  restored_opponent :
      (cfg : Config) (conv : Conversation) (s s' : Store db) (r : List ℕ × Conversation)
      → restore_private_conversation db cfg conv s ≡ (ok r, s')
      → (opponent : ℕ) × ((conv.opponent_id ≡ some opponent)
          × (add_participants db cfg conv (conv.owner_id ∷ opponent ∷ []) false s ≡ (ok r, s')))
  unfolding restore_private_conversation
  restored_opponent cfg conv s s' r h = elim (Option-cases conv.opponent_id) [
    | inr (opponent, e) ↦ (opponent, (e, rw (restore_private_conversation, e) at h))
    | inl e ↦
        let (_, _, _, end) =
          bind_ok
            (require (not (exceeds (plus (current_count db conv false s) 2) cfg.max_participants))
              participants_limit s)
            (λ _. throw {A = List ℕ × Conversation} type_error) r s'
            (rw (restore_private_conversation, e) at h) in
        absurd (cc end)
  ]

  pub restored_members :
      (cfg : Config) (conv : Conversation) (s s' : Store db) (u : Unit {0}) (v : ℕ)
      → IsSound db conv s
      → restore_participants db cfg conv s ≡ (ok u, s')
      → membership db conv.id v s' ≡ with_parties conv v (membership db conv.id v s)
  unfolding restore_participants
  restored_members cfg conv s s' u v sound h = elim (Bool-cases (is_private conv.kind)) [
    | inr e ↦
        let here = (returned tt u s s' (rw (restore_participants, e) at h)).1 in
        rw e (ap (λ z. membership db conv.id v z) (sym here))
    | inl e ↦
        let (r, s1, run, end) =
          bind_ok (restore_private_conversation db cfg conv s) _ u s'
            (rw (restore_participants, e) at h) in
        let here = (returned tt u s1 s' end).1 in
        let (opponent, (there, grown)) = restored_opponent cfg conv s s1 r run in
        let (_, _, who) =
          add_participants-members db cfg conv (conv.owner_id ∷ opponent ∷ []) s s1 r.0 r.1 sound
            grown in
        rw (e, there)
          (ap (λ z. membership db conv.id v z) (sym here)
            ∙ ((who v).0
                ∙ once (membership db conv.id v s) conv.owner_id opponent v (sound.unique v)))
  ]
