-- ===== src/Operations/ConversationEdit/Allowed.antt =====
-- Who may edit a conversation.
use sama_server.Prelude.{
  ℕ, ◌≡◌, refl, sym, Bool, true, ◌||◌, ◌&&◌, ◌==◌, Option, some, arith, Bool-cases, Option-cases,
  inl, inr,
}
use sama_server.Errors.{ok, bind_ok, returned}
use sama_server.Store.{Conversation, Driver, Store, Config}
use sama_server.Repositories.Conversations.{is_private}
use sama_server.Conversation.{has_access_to_conversation}
use sama_server.Conversation.Rights.{there_is, admin_there, there_is-reported, rights-reported}
use sama_server.Operations.ConversationEdit.{EditParams, check_edit_access, edit_conversation}

module _ (db : Driver) where
  open db use {participants, conversations}

  pub check_edit_access_ok :
      (org cid uid : ℕ) (s s' : Store db)
      → check_edit_access db org cid uid s ≡ (ok tt, s')
      → (s' ≡ s)
        × ((conv : Conversation) × (((has_access_to_conversation db org cid uid s).conversation
                ≡ some conv)
              × ((is_private conv.kind
                    || ((has_access_to_conversation db org cid uid s).as_owner
                        || (has_access_to_conversation db org cid uid s).as_admin))
                  ≡ true)))
  unfolding check_edit_access
  check_edit_access_ok org cid uid s s' h =
      let access = has_access_to_conversation db org cid uid s in
      elim (Option-cases access.conversation) [
        | inl e ↦ absurd (cc (rw (check_edit_access, e) at h))
        | inr (conv, e) ↦
            elim (Bool-cases (is_private conv.kind || (access.as_owner || access.as_admin))) [
              | inl allowed ↦ (
                sym (returned tt tt s s' (rw (check_edit_access, e, allowed) at h)).1,
                (conv, (e, allowed)),
              )
              | inr refused ↦ absurd (cc (rw (check_edit_access, e, refused) at h))
            ]
      ]

  -- The store has a conversation of the organization with the id that is private, or that the user
  -- owns, or the user is an admin among its participants.
  abbrev pub may_edit : ℕ → ℕ → ℕ → Store db → Bool
  may_edit org cid uid s =
      there_is db (λ d. is_private d.kind) org cid s
      || (there_is db (λ d. d.owner_id == uid) org cid s
          || (there_is db (λ _. true) org cid s && admin_there db cid uid s))

  -- After a successful edition the store before it had the conversation in the organization, and the
  -- caller was its owner or a participant with the role of an admin, or it was private.
  pub edit_conversation_allowed :
      (cfg : Config) (org uid cid : ℕ) (params : EditParams) (s s' : Store db)
      (r : Option Conversation)
      → edit_conversation db cfg org uid cid params s ≡ (ok r, s')
      → may_edit org cid uid s ≡ true
  unfolding edit_conversation
  edit_conversation_allowed cfg org uid cid params s s' r h =
      let (_, s1, checked, _) = bind_ok (check_edit_access db org cid uid s) _ r s' h in
      let (conv, (found, allowed)) = (check_edit_access_ok org cid uid s s1 checked).1 in
      let a = has_access_to_conversation db org cid uid s in
      elim (Bool-cases (is_private conv.kind)) [
        | inl e ↦ rw (there_is-reported db (λ d. is_private d.kind) org cid uid s conv found e) refl
        | inr e ↦
            rw (rights-reported db (λ _. true) org cid uid s conv found refl (rw e at allowed))
              (ground arith)
      ]
