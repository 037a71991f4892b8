-- ===== src/Operations/MessageDelete/Effect.antt =====
-- What a deletion request removes, hides and leaves alone.
use sama_server.Prelude.{
  ℕ, ◌==◌, ◌≡◌, refl, ◌∙◌, Bool, true, false, not, ◌&&◌, ◌||◌, List, none, some, if◌then◌else◌,
  includes, is_empty, arith, Bool-cases, inl, inr,
}
use sama_server.Mongo.Counting.{count_ext}
use sama_server.Store.{Conversation, Message, Driver, Store}
use sama_server.Repositories.Messages.{
  in_scope, by_author, hide_for, delete_by_ids_in_conversation, update_delete_for_user,
}
use sama_server.Repositories.Conversations.{is_private}
use sama_server.Conversation.{has_access_to_conversation}
use sama_server.Conversation.Reported.{has_access-conversation}
use sama_server.Conversation.Rights.{there_is, admin_there, rights-reported}
use sama_server.Messages.{
  find_messages_by_ids, delete_messages_for_everyone, hide_messages_for_user,
}
use sama_server.Messages.Scope.{ids_of, found_ids}
use sama_server.Operations.MessageDelete.{DeleteParams, can_moderate, delete_messages, remove_found}
use sama_server.Operations.MessageDelete.Safety.{delete_messages_cases}

and_left : (a b : Bool) → (a && b) ≡ true → a ≡ true
and_left a b h = ground arith

and_right : (a b : Bool) → (a && b) ≡ true → b ≡ true
and_right a b h = ground arith

may_of :
    (moderates : Bool) (uid : ℕ) (m : Message)
    → by_author (if moderates then none else some uid) m ≡ true
    → (moderates || m.from == uid) ≡ true
may_of true uid m h = refl
may_of false uid m h = h

module _ (db : Driver) where
  open db use {messages}

  -- The scope of the write lies in the scope of the request.
  scope_found :
      (ids : List ℕ) (cid cid' org : ℕ) (s : Store db) (m : Message)
      → cid' ≡ cid
      → in_scope (ids_of (find_messages_by_ids db ids s)) cid' org m ≡ true
      → in_scope ids cid org m ≡ true
  scope_found ids cid cid' org s m same h = elim (Bool-cases (includes m.id ids)) [
    | inl e ↦ ground arith
    | inr e ↦ ground (arith, found_ids db m.id ids s e)
  ]

  remove_found-out_of_reach :
      (params : DeleteParams) (org uid : ℕ) (conv : Conversation) (moderates : Bool)
      (r : Message → Bool) (s : Store db)
      → conv.id ≡ params.cid
      → ((m : Message)
          → in_scope params.ids params.cid org m ≡ true
          → params.for_all ≡ true
          → (moderates || m.from == uid) ≡ true
          → r m ≡ false)
      → ((m : Message) (hidden : List ℕ)
          → in_scope params.ids params.cid org m ≡ true
          → params.for_all ≡ false
          → r (record m { deleted_for = hidden }) ≡ r m)
      → messages.count r
          (remove_found db params org uid conv moderates
            (ids_of (find_messages_by_ids db params.ids s))
            s).messages
        ≡ messages.count r s.messages
  unfolding remove_found delete_messages_for_everyone hide_messages_for_user
      delete_by_ids_in_conversation update_delete_for_user
  remove_found-out_of_reach params org uid conv moderates r s same out blind =
      let ids = ids_of (find_messages_by_ids db params.ids s) in
      elim (Bool-cases params.for_all) [
        | inl all ↦ rw all (
            messages.count-delete_many r
              (λ m.
                in_scope ids conv.id org m && by_author (if moderates then none else some uid) m)
              s.messages
            ∙ count_ext messages s.messages (λ m. kept m all))
        | inr own ↦ rw own (
            messages.count-update_many r (in_scope ids conv.id org) (hide_for uid) s.messages
            ∙ count_ext messages s.messages (λ m. hidden m own))
      ]
    where
      kept :
          (m : Message)
          → params.for_all ≡ true
          → (r m
              && not (
                  in_scope (ids_of (find_messages_by_ids db params.ids s)) conv.id org m
                  && by_author (if moderates then none else some uid) m))
            ≡ r m
      kept m all =
          elim (Bool-cases (
            in_scope (ids_of (find_messages_by_ids db params.ids s)) conv.id org m
            && by_author (if moderates then none else some uid) m)) [
              | inr e ↦ rw e (ground arith)
              | inl e ↦
                  let scope =
                    in_scope (ids_of (find_messages_by_ids db params.ids s)) conv.id org m in
                  let mine = by_author (if moderates then none else some uid) m in
                  let there =
                    scope_found params.ids params.cid conv.id org s m same
                      (and_left scope mine e) in
                  rw (out m there all (may_of moderates uid m (and_right scope mine e))) refl
            ]

      hidden :
          (m : Message)
          → params.for_all ≡ false
          → r (
              if in_scope (ids_of (find_messages_by_ids db params.ids s)) conv.id org m
              then hide_for uid m
              else m)
            ≡ r m
      hidden m own =
          elim (Bool-cases
            (in_scope (ids_of (find_messages_by_ids db params.ids s)) conv.id org m)) [
              | inl e ↦
                  let there = scope_found params.ids params.cid conv.id org s m same e in
                  rw e (blind m (hide_for uid m).deleted_for there own)
              | inr e ↦ rw e refl
            ]

  -- Who may remove messages of others: the owner of a group or channel of the organization with the
  -- id, or a participant of it with the role of an admin, by what the store has.
  abbrev pub may_moderate : ℕ → ℕ → ℕ → Store db → Bool
  may_moderate org cid uid s =
      there_is db (λ d. not (is_private d.kind) && d.owner_id == uid) org cid s
      || (there_is db (λ d. not (is_private d.kind)) org cid s && admin_there db cid uid s)

  -- Whatever the outcome, a query on messages counts as before a request for everyone, when it matches
  -- none of those with the ids, the conversation and the organization of the request that are the
  -- caller's own, or anyone's where the caller may moderate; and as before a request to hide, when for
  -- messages with these ids, conversation and organization it does not ask whom they are hidden from.
  pub delete_messages-out_of_reach :
      (org uid : ℕ) (params : DeleteParams) (r : Message → Bool) (s : Store db)
      → ((m : Message)
          → in_scope params.ids params.cid org m ≡ true
          → params.for_all ≡ true
          → (may_moderate org params.cid uid s || m.from == uid) ≡ true
          → r m ≡ false)
      → ((m : Message) (hidden : List ℕ)
          → in_scope params.ids params.cid org m ≡ true
          → params.for_all ≡ false
          → r (record m { deleted_for = hidden }) ≡ r m)
      → messages.count r (delete_messages db org uid params s).1.messages
        ≡ messages.count r s.messages
  delete_messages-out_of_reach org uid params r s out blind =
      elim (delete_messages_cases db org uid params s) [
        | inl (e, refused) ↦ rw refused refl
        | inr (conv, (found, _, _, done)) ↦
            let (same, _, _) = has_access-conversation db org params.cid uid s conv found in
            rw done (untouched conv (is_empty (find_messages_by_ids db params.ids s)) found same)
      ]
    where
      moderated :
          (conv : Conversation) (m : Message)
          → (has_access_to_conversation db org params.cid uid s).conversation ≡ some conv
          → (can_moderate conv (has_access_to_conversation db org params.cid uid s)
              || m.from == uid)
            ≡ true
          → (may_moderate org params.cid uid s || m.from == uid) ≡ true
      moderated conv m found may =
          elim (Bool-cases
            (can_moderate conv (has_access_to_conversation db org params.cid uid s))) [
              | inr e ↦ ground (arith, rw e at may)
              | inl e ↦
                  rw
                    (rights-reported db (λ d. not (is_private d.kind)) org params.cid uid s conv
                      found (ground arith) (ground arith))
                    refl
            ]

      untouched :
          (conv : Conversation) (nothing : Bool)
          → (has_access_to_conversation db org params.cid uid s).conversation ≡ some conv
          → conv.id ≡ params.cid
          → messages.count r
              (if nothing
                then s
                else remove_found db params org uid conv
                    (can_moderate conv (has_access_to_conversation db org params.cid uid s))
                    (ids_of (find_messages_by_ids db params.ids s))
                    s).messages
            ≡ messages.count r s.messages
      untouched conv true found same = refl
      untouched conv false found same =
          remove_found-out_of_reach params org uid conv _ r s same
            (λ m h all may. out m h all (moderated conv m found may)) blind
