-- ===== src/Conversation/Reported.antt =====
-- What `hasAccessToConversation` reports, in terms of the documents it looks up.
use mathlib.Core.Bool.{false≢true}
use sama_server.Prelude.{
  lt→ltb, ℕ, ◌<◌, ltb, ◌==◌, ◌≡◌, refl, sym, ap, ◌∙◌, Bool, true, ◌&&◌, Option, none, some, arith,
  Option-cases, inl, inr,
}
use sama_server.Store.{admin, Participant, Conversation, Driver, Store}
use sama_server.Repositories.Participants.{
  is_member, same_role, find_first_conversation_participant,
}
use sama_server.Repositories.Conversations.{find_by_id_with_org_scope}
use sama_server.Conversation.Members.{membership}
use sama_server.Conversation.{access_of, has_access_to_conversation}

-- A participant of the conversation with the role "admin".
abbrev pub is_admin : ℕ → ℕ → Participant → Bool
is_admin cid uid p = is_member cid uid p && same_role p.role admin

module _ (db : Driver) where
  open db use {participants, conversations}

  pub access_conversation :
      (uid : ℕ) (conv : Conversation) (p : Option Participant)
      → (access_of uid conv p).conversation ≡ some conv
  access_conversation uid conv none = refl
  access_conversation uid conv (some p) = refl

  -- A conversation that is reported is the one the lookup found, and the rest is read off the
  -- participant found.
  pub access_found :
      (org cid uid : ℕ) (s : Store db) (conv : Conversation)
      → (has_access_to_conversation db org cid uid s).conversation ≡ some conv
      → (find_by_id_with_org_scope conversations org cid s.conversations ≡ some conv)
        × (has_access_to_conversation db org cid uid s
            ≡ access_of uid conv
                (find_first_conversation_participant participants cid (some uid) s.participants))
  unfolding has_access_to_conversation
  access_found org cid uid s conv h =
      elim (Option-cases (find_by_id_with_org_scope conversations org cid s.conversations)) [
        | inl e ↦ absurd (cc (rw (e, has_access_to_conversation) at h))
        | inr (d, e) ↦
            let p =
              find_first_conversation_participant participants cid (some uid) s.participants in
            let both : some d ≡ some conv =
              sym (access_conversation uid d p) ∙ (rw (e, has_access_to_conversation) at h) in
            let same : d ≡ conv = cc in
            (rw (← same) e, rw (e, has_access_to_conversation) (ap (λ c. access_of uid c p) same))
      ]

  -- The conversation reported is one of the store, with the id and the organization asked for.
  pub has_access-conversation :
      (org cid uid : ℕ) (s : Store db) (conv : Conversation)
      → (has_access_to_conversation db org cid uid s).conversation ≡ some conv
      → (conv.id ≡ cid)
        × (conv.organization_id ≡ org)
        × ((p : Conversation → Bool) → p conv ≡ true → 0 < conversations.count p s.conversations)
  unfolding has_access_to_conversation find_by_id_with_org_scope
  has_access-conversation org cid uid s conv h =
      let (found, _) = access_found org cid uid s conv h in
      let (passes, counts) = conversations.find_one_some _ s.conversations conv found in
      (ground arith, ground arith, counts)

  -- The caller of a conversation that is reported is a participant exactly when the store has one of
  -- that conversation and user.
  pub has_access-participant :
      (org cid uid : ℕ) (s : Store db) (conv : Conversation)
      → (has_access_to_conversation db org cid uid s).conversation ≡ some conv
      → (has_access_to_conversation db org cid uid s).as_participant
        ≡ ltb 0 (membership db cid uid s)
  unfolding find_first_conversation_participant
  has_access-participant org cid uid s conv h =
      let (_, e) = access_found org cid uid s conv h in
      elim (Option-cases (participants.find_one (is_member cid uid) s.participants)) [
        | inl out ↦
            let z = participants.find_one_none (is_member cid uid) s.participants out in
            rw (e, out) (rw z refl)
        | inr (p, found) ↦
            let (passes, counts) =
              participants.find_one_some (is_member cid uid) s.participants p found in
            rw (e, found) (sym (lt→ltb _ _ (counts (is_member cid uid) passes)))
      ]

  pub has_access-owner :
      (org cid uid : ℕ) (s : Store db) (conv : Conversation)
      → (has_access_to_conversation db org cid uid s).conversation ≡ some conv
      → (has_access_to_conversation db org cid uid s).as_owner ≡ (conv.owner_id == uid)
  has_access-owner org cid uid s conv h =
      let (_, e) = access_found org cid uid s conv h in
      elim (Option-cases
        (find_first_conversation_participant participants cid (some uid) s.participants)) [
          | inl out ↦ rw (e, out) refl
          | inr (p, found) ↦ rw (e, found) refl
        ]

  -- Who is reported as an admin of a conversation is a participant of it with that role.
  pub has_access-admin :
      (org cid uid : ℕ) (s : Store db)
      → (has_access_to_conversation db org cid uid s).as_admin ≡ true
      → 0 < participants.count (is_admin cid uid) s.participants
  unfolding has_access_to_conversation find_first_conversation_participant
  has_access-admin org cid uid s h =
      elim (Option-cases (find_by_id_with_org_scope conversations org cid s.conversations)) [
        | inl none_there ↦ absurd (false≢true (rw (none_there, has_access_to_conversation) at h))
        | inr (conv, there) ↦
            elim (Option-cases (participants.find_one (is_member cid uid) s.participants)) [
              | inl out ↦ absurd (false≢true (rw (there, out, has_access_to_conversation) at h))
              | inr (p, found) ↦
                  let (passes, counts) =
                    participants.find_one_some (is_member cid uid) s.participants p found in
                  counts (is_admin cid uid)
                    (rw (passes, (rw (there, found, has_access_to_conversation) at h)) refl)
            ]
      ]
