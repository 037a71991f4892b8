-- ===== src/Operations/ConversationEdit/Leaving.antt =====
-- What the deletion of a conversation by one of its participants does to it.
use sama_server.Prelude.{
  ℕ, ◌≡◌, ◌⊎◌, ◌==◌, sym, ap, ◌∙◌, [], ◌∷◌, some, if◌then◌else◌, arith, Bool-cases, inl, inr,
  ==_iff, some_inj,
}
use sama_server.Errors.{
  ok, bind_ok, returned, required, required_some, require, require_some, bad_request,
  participant_not_found,
}
use sama_server.Store.{Conversation, Driver, Store}
use sama_server.Conversation.{has_access_to_conversation, remove_participants}
use sama_server.Conversation.Members.{members, membership, IsSound}
use sama_server.Conversation.Removing.{
  settled, settled-id, remove_participants-members, remove_participants-IsSound,
}
use sama_server.Operations.ConversationEdit.{get_conversation_details, delete_conversation}

module _ (db : Driver) where
  details_ok :
      (org cid uid : ℕ) (s s' : Store db) (conv : Conversation)
      → get_conversation_details db org cid uid s ≡ (ok conv, s')
      → (s' ≡ s) × ((has_access_to_conversation db org cid uid s).conversation ≡ some conv)
  unfolding get_conversation_details
  details_ok org cid uid s s' conv h =
      let access = has_access_to_conversation db org cid uid s in
      let (c, s1, known, h1) =
        bind_ok (require_some access.conversation bad_request s) _ conv s' h in
      let (u, s2, takes_part, h2) =
        bind_ok (require access.as_participant participant_not_found s1) _ conv s' h1 in
      let (here1, found) = required_some access.conversation bad_request s s1 c known in
      let (object, here3) = returned c conv s2 s' h2 in
      (
        sym here3
            ∙ (required access.as_participant participant_not_found s1 s2 u takes_part ∙ here1),
        found ∙ ap some object,
      )

  -- After a participant deletes a conversation that was sound, the caller is no participant of it,
  -- whether anyone else is one has not changed, and it is sound, or nobody is left in it.
  pub delete_conversation_lem :
      (org uid cid : ℕ) (conv : Conversation) (s s' : Store db)
      → (has_access_to_conversation db org cid uid s).conversation ≡ some conv
      → IsSound db conv s
      → delete_conversation db org uid cid s ≡ (ok tt, s')
      → ((v : ℕ) → membership db conv.id v s' ≡ (if v == uid then 0 else membership db conv.id v s))
        × ((members db conv.id s' ≡ 0)
            ⊎ ((conv' : Conversation) × ((conv'.id ≡ conv.id) × IsSound db conv' s')))
  unfolding delete_conversation
  delete_conversation_lem org uid cid conv s s' found v h =
      let (c, s1, details, h1) = bind_ok (get_conversation_details db org cid uid s) _ tt s' h in
      let (r, s2, removed, h2) = bind_ok (remove_participants db c (uid ∷ []) s1) _ tt s' h1 in
      let (here, found1) = details_ok org cid uid s s1 c details in
      let same : c ≡ conv = some_inj c conv (sym found1 ∙ found) in
      let run : remove_participants db conv (uid ∷ []) s ≡ (ok r, s') =
        ap (λ d. remove_participants db d (uid ∷ []) s) (sym same)
        ∙ (ap (λ z. remove_participants db c (uid ∷ []) z) (sym here)
            ∙ (removed ∙ ap (λ z. (ok r, z)) (returned tt tt s2 s' h2).1)) in
      let (_, empty, who) = remove_participants-members db conv (uid ∷ []) s s' r v run in
      (
        (λ x. ground (arith, (who x).0)),
        elim (Bool-cases r.is_empty_and_deleted) [
          | inl flag ↦ inl ((==_iff _ _).0 (sym empty ∙ flag))
          | inr flag ↦ inr (
            settled r,
            (
              settled-id db conv (uid ∷ []) s s' r run flag,
              remove_participants-IsSound db conv (uid ∷ []) s s' r v run flag,
            ),
          )
        ],
      )
