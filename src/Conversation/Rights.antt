-- ===== src/Conversation/Rights.antt =====
-- What `hasAccessToConversation` reports, as queries on the store.
use sama_server.Prelude.{
  lt→ltb, ℕ, ◌≤◌, ltb, ◌==◌, ◌≡◌, refl, sym, ◌∙◌, Bool, true, false, ◌&&◌, ◌||◌, none, some, arith,
  Option-cases, Bool-cases, inl, inr,
}
use sama_server.Store.{admin, Conversation, Driver, Store}
use sama_server.Repositories.Participants.{
  is_member, same_role, find_first_conversation_participant,
}
use sama_server.Repositories.Conversations.{has_id, exists, find_by_id_with_org_scope}
use sama_server.Mongo.Counting.{count_mono, found_count}
use sama_server.Conversation.Members.{membership}
use sama_server.Conversation.{has_access_to_conversation}
use sama_server.Conversation.Reported.{
  is_admin, has_access-conversation, has_access-owner, has_access-admin,
}

module _ (db : Driver) where
  open db use {participants, conversations}

  -- Whether the store has a conversation of the organization with the id that passes the test, and a
  -- participant of the conversation that is an admin.
  abbrev pub there_is : (Conversation → Bool) → ℕ → ℕ → Store db → Bool
  there_is p org cid s =
      ltb 0 (
        conversations.count (λ d. (d.organization_id == org && has_id cid d) && p d)
          s.conversations)

  abbrev pub admin_there : ℕ → ℕ → Store db → Bool
  admin_there cid uid s = ltb 0 (participants.count (is_admin cid uid) s.participants)

  -- What the conversation reported passes, one in the store does.
  pub there_is-reported :
      (p : Conversation → Bool) (org cid uid : ℕ) (s : Store db) (conv : Conversation)
      → (has_access_to_conversation db org cid uid s).conversation ≡ some conv
      → p conv ≡ true
      → there_is p org cid s ≡ true
  there_is-reported p org cid uid s conv h e =
      let (id, home, counts) = has_access-conversation db org cid uid s conv h in
      lt→ltb _ _
        (counts (λ d. (d.organization_id == org && has_id cid d) && p d) (rw e (ground arith)))

  admin_there-reported :
      (org cid uid : ℕ) (s : Store db)
      → (has_access_to_conversation db org cid uid s).as_admin ≡ true
      → admin_there cid uid s ≡ true
  admin_there-reported org cid uid s h = lt→ltb _ _ (has_access-admin db org cid uid s h)

  -- The reported owner of a conversation reported that passes a test is the owner of one in the store
  -- that passes it.
  pub owner-reported :
      (p : Conversation → Bool) (org cid uid : ℕ) (s : Store db) (conv : Conversation)
      → (has_access_to_conversation db org cid uid s).conversation ≡ some conv
      → p conv ≡ true
      → (has_access_to_conversation db org cid uid s).as_owner ≡ true
      → there_is (λ d. p d && d.owner_id == uid) org cid s ≡ true
  owner-reported p org cid uid s conv h passes owns =
      there_is-reported (λ d. p d && d.owner_id == uid) org cid uid s conv h
        (rw passes (sym (has_access-owner db org cid uid s conv h) ∙ owns))

  -- Who is reported as the owner or an admin of a conversation that passes a test is so in the store.
  pub rights-reported :
      (p : Conversation → Bool) (org cid uid : ℕ) (s : Store db) (conv : Conversation)
      → (has_access_to_conversation db org cid uid s).conversation ≡ some conv
      → p conv ≡ true
      → ((has_access_to_conversation db org cid uid s).as_owner
          || (has_access_to_conversation db org cid uid s).as_admin)
        ≡ true
      → (there_is (λ d. p d && d.owner_id == uid) org cid s
          || (there_is p org cid s && admin_there cid uid s))
        ≡ true
  rights-reported p org cid uid s conv h passes right =
      elim (Bool-cases (has_access_to_conversation db org cid uid s).as_owner) [
        | inl owns ↦ rw (owner-reported p org cid uid s conv h passes owns) refl
        | inr other ↦
            rw
              (
                there_is-reported p org cid uid s conv h passes,
                admin_there-reported org cid uid s (rw other at right),
              )
              (ground arith)
      ]

  none_there :
      (p : Conversation → Bool) (org cid : ℕ) (s : Store db)
      → find_by_id_with_org_scope conversations org cid s.conversations ≡ none
      → there_is p org cid s ≡ false
  unfolding find_by_id_with_org_scope
  none_there p org cid s e =
      let q = λ (d : Conversation). d.organization_id == org && has_id cid d in
      let z = conversations.find_one_none q s.conversations e in
      let le = count_mono conversations (λ d. q d && p d) q s.conversations (λ d h. ground arith) in
      let zero' : conversations.count (λ d. q d && p d) s.conversations ≡ 0 = omega arith in
      rw zero' refl

  one_there :
      (p : Conversation → Bool) (org cid : ℕ) (s : Store db) (conv : Conversation)
      → conversations.count (has_id cid) s.conversations ≤ 1
      → find_by_id_with_org_scope conversations org cid s.conversations ≡ some conv
      → there_is p org cid s ≡ p conv
  unfolding find_by_id_with_org_scope
  one_there p org cid s conv one e =
      let q = λ (d : Conversation). d.organization_id == org && has_id cid d in
      let le = count_mono conversations q (has_id cid) s.conversations (λ d h. ground arith) in
      rw (found_count conversations q p s.conversations conv e (omega arith)) (ground arith)

  -- When at most one conversation has the id and the caller is at most once a participant of it, the
  -- access reports a conversation exactly when the store has one with the id in the organization, and
  -- the caller as a participant, as the owner and as an admin of it exactly when the store does.
  pub has_access_lem :
      (org cid uid : ℕ) (s : Store db)
      → conversations.count (has_id cid) s.conversations ≤ 1
      → membership db cid uid s ≤ 1
      → (exists (has_access_to_conversation db org cid uid s).conversation
          ≡ there_is (λ _. true) org cid s)
        × ((has_access_to_conversation db org cid uid s).as_participant
            ≡ (there_is (λ _. true) org cid s && ltb 0 (membership db cid uid s)))
        × ((has_access_to_conversation db org cid uid s).as_owner
            ≡ there_is (λ d. d.owner_id == uid) org cid s)
        × ((has_access_to_conversation db org cid uid s).as_admin
            ≡ (there_is (λ _. true) org cid s && admin_there cid uid s))
  unfolding has_access_to_conversation find_first_conversation_participant
  has_access_lem org cid uid s one once =
      elim (Option-cases (find_by_id_with_org_scope conversations org cid s.conversations)) [
        | inl e ↦
            rw
              (
                has_access_to_conversation,
                e,
                none_there (λ _. true) org cid s e,
                none_there (λ d. d.owner_id == uid) org cid s e,
              )
              (refl, refl, refl, refl)
        | inr (conv, e) ↦
            elim (Option-cases (participants.find_one (is_member cid uid) s.participants)) [
              | inl out ↦
                  let z = participants.find_one_none (is_member cid uid) s.participants out in
                  let le =
                    count_mono participants (is_admin cid uid) (is_member cid uid) s.participants
                      (λ d h. ground arith) in
                  let no_admin : participants.count (is_admin cid uid) s.participants ≡ 0 =
                    omega arith in
                  rw
                    (
                      has_access_to_conversation,
                      e,
                      out,
                      one_there (λ _. true) org cid s conv one e,
                      one_there (λ d. d.owner_id == uid) org cid s conv one e,
                      z,
                      no_admin,
                    )
                    (refl, refl, refl, refl)
              | inr (p, found) ↦
                  let (passes, counts) =
                    participants.find_one_some (is_member cid uid) s.participants p found in
                  rw
                    (
                      has_access_to_conversation,
                      e,
                      found,
                      one_there (λ _. true) org cid s conv one e,
                      one_there (λ d. d.owner_id == uid) org cid s conv one e,
                      lt→ltb _ _ (counts (is_member cid uid) passes),
                      found_count participants (is_member cid uid) (λ d. same_role d.role admin)
                          s.participants p found once,
                    )
                    (refl, refl, refl, ground arith)
            ]
      ]
