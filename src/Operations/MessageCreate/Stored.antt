-- ===== src/Operations/MessageCreate/Stored.antt =====
-- What a new message leaves in the store.
use Prim.Native.String.{String}
use sama_server.Prelude.{
  ℕ, ◌+◌, ◌==◌, ◌≡◌, ◌≤◌, sym, ap, ◌∙◌, subst, Bool, not, ◌&&◌, ◌||◌, Option, none, some,
  if◌then◌else◌, arith, any, Bool-cases, some_inj, inl, inr, ==_iff,
}
use sama_server.Errors.{
  ok, bind_ok, required, required_some, returned, require, require_some, type_error,
  invalid_attachment_fields, incorrect_type_of_body, message_blocked_by_handler,
}
use sama_server.Store.{User, Conversation, Message, Driver, Store, Config}
use sama_server.Repositories.Conversations.{is_private, is_some_eq}
use sama_server.Repositories.Users.{find_user}
use sama_server.Conversation.{has_access_to_conversation}
use sama_server.Conversation.Members.{membership, IsSound}
use sama_server.Repositories.Participants.{is_member}
use sama_server.Operations.MessageCreate.Parties.{
  with_parties, inserted_participants, answered_participants, restored_members,
}
use sama_server.Operations.MessageCreate.{check_message}
use sama_server.Operations.MessageCreate.Blocked.{check_message-found}
use sama_server.Operations.MessageCreate.Storing.{
  MessageParams, Compiled, Handled, unchanged, insert_message, run_handler, process_handler_result,
  handled_params, restore_participants, insert_answer, store_message, create_message,
  validate_attachment_in_message, is_other,
}
use sama_server.Operations.MessageCreate.Written.{
  IsKept, inserted, restored, answered-Keeps, touched,
}

module _ (db : Driver) where
  open db use {users, messages, conversations, participants}

  stored :
      (cfg : Config) (user : User) (conv : Conversation) (params : MessageParams) (t now : ℕ)
      (handled : Handled) (s s' : Store db) (m : Message)
      → IsSound db conv s
      → store_message db cfg user conv params t now handled s ≡ (ok m, s')
      → ((m.from ≡ user.id) × (m.cid ≡ conv.id))
        × (((p : Message → Bool)
              → messages.count p s.messages + (if p m then 1 else 0) ≤ messages.count p s'.messages)
            × (IsKept db conv.id s'
                × ((w : ℕ)
                    → membership db conv.id w s'
                      ≡ with_parties conv w (membership db conv.id w s))))
  unfolding store_message
  stored cfg user conv params t now handled s s' m v h =
      let (m1, s1, insert, h1) =
        bind_ok (insert_message db user conv (handled_params db params handled) t now s) _ m s' h in
      let (u2, s2, restore, h2) = bind_ok (restore_participants db cfg conv s1) _ m s' h1 in
      let (u3, s3, answer, h3) =
        bind_ok (insert_answer db conv params t now handled s2) _ m s' h2 in
      let (fields, (counts, sound)) =
        inserted db user conv (handled_params db params handled) t now s s1 m1 insert in
      let (kept, same) = restored db cfg conv s1 s2 u2 (sound conv v) restore in
      let (left, keeps) =
        answered-Keeps db conv params t now conv.id handled s2 s3 u3 kept answer in
      let (object, here) = returned m1 m _ s' h3 in
      let unmoved : s1.participants ≡ s.participants =
        inserted_participants db user conv (handled_params db params handled) t now s s1 m1
          insert in
      let moved : s3.participants ≡ s2.participants =
        answered_participants db conv params t now handled s2 s3 u3 answer in
      rw (← object, ← here)
        (
          fields,
          (
            (λ p. omega (arith, counts p, keeps p, ap (λ z. messages.count p z) same)),
            (
              touched db conv.id m1.created_at s3 left,
              λ w.
                  ap (λ z. participants.count (is_member conv.id w) z) moved
                  ∙ (restored_members db cfg conv s1 s2 u2 w (sound conv v) restore
                      ∙ ap (λ z. with_parties conv w (participants.count (is_member conv.id w) z))
                          unmoved),
            ),
          ),
        )

  processed :
      (bot_login : String) (org : ℕ) (c : Compiled) (s s' : Store db) (handled : Handled)
      → process_handler_result db bot_login org c s ≡ (ok handled, s')
      → s' ≡ s
  unfolding process_handler_result
  processed bot_login org c s s' handled h = elim (Bool-cases c.accept) [
    | inl e ↦ sym (returned unchanged handled s s' (rw (process_handler_result, e) at h)).1
    | inr e ↦
        let (u1, s1, first, h1) =
          bind_ok
            (require (not (any (λ a. not (validate_attachment_in_message a)) c.attachments))
              invalid_attachment_fields s)
            _ handled s' (rw (process_handler_result, e) at h) in
        let (u2, s2, second, h2) =
          bind_ok (require (not (is_other c.body)) incorrect_type_of_body s1) _ handled s' h1 in
        sym (returned _ handled s2 s' h2).1
        ∙ (required _ _ s1 s2 u2 second ∙ required _ _ s s1 u1 first)
  ]

  ran :
      (bot_login : String) (org : ℕ) (compiled : Option Compiled) (s s' : Store db)
      (handled : Handled)
      → run_handler db bot_login org compiled s ≡ (ok handled, s')
      → s' ≡ s
  unfolding run_handler
  ran bot_login org none s s' handled h = sym (returned unchanged handled s s' h).1
  ran bot_login org (some c) s s' handled h =
      let (u1, s1, first, h1) =
        bind_ok (require (not c.rejected) message_blocked_by_handler s) _ handled s' h in
      processed bot_login org c s1 s' handled h1 ∙ required _ _ s s1 u1 first

  found_user-id :
      (uid : ℕ) (s : Store db) (user : User)
      → find_user users uid s.users ≡ some user
      → user.id ≡ uid
  unfolding find_user
  found_user-id uid s user e =
      (==_iff user.id uid).0 (users.find_one_some (λ u. u.id == uid) s.users user e).0

  -- After a new message is accepted, with or without a handler, in a conversation that was sound: the
  -- message is the caller's, in that conversation and in the store, no message was lost, and the
  -- conversation is sound. The two of a private conversation take part in it, once each, and whether
  -- anyone else does has not changed.
  pub create_message_lem :
      (cfg : Config) (bot_login : String) (compiled : Option Compiled) (org uid cid : ℕ)
      (params : MessageParams) (t now : ℕ) (conv : Conversation) (s s' : Store db) (m : Message)
      → (has_access_to_conversation db org cid uid s).conversation ≡ some conv
      → IsSound db conv s
      → create_message db cfg bot_login compiled org uid cid params t now s ≡ (ok m, s')
      → ((m.from ≡ uid) × (m.cid ≡ conv.id))
        × (((p : Message → Bool)
              → messages.count p s.messages + (if p m then 1 else 0) ≤ messages.count p s'.messages)
            × (((conv' : Conversation) × ((conv'.id ≡ conv.id) × IsSound db conv' s'))
                × ((w : ℕ)
                    → membership db conv.id w s' ≡ (
                        if is_private conv.kind
                          && (conv.owner_id == w || is_some_eq conv.opponent_id w)
                        then 1
                        else membership db conv.id w s))))
  unfolding create_message
  create_message_lem cfg bot_login compiled org uid cid params t now conv s s' m found v h =
      let (conv1, s1, checked, h1) =
        bind_ok (check_message db cfg org cid uid params.replied_message_id s) _ m s' h in
      let (user, s2, known, h2) =
        bind_ok (require_some (find_user users uid s.users) type_error s1) _ m s' h1 in
      let (handled, s3, handling, h3) =
        bind_ok (run_handler db bot_login user.organization_id compiled s2) _ m s' h2 in
      let (here1, found1) =
        check_message-found db cfg org cid uid params.replied_message_id s s1 conv1 checked in
      let (here2, there) =
        required_some (find_user users uid s.users) type_error s1 s2 user known in
      let here3 = ran bot_login user.organization_id compiled s2 s3 handled handling in
      let same : conv1 ≡ conv = some_inj conv1 conv (sym found1 ∙ found) in
      let run : store_message db cfg user conv params t now handled s ≡ (ok m, s') =
        subst (λ c. store_message db cfg user c params t now handled s ≡ (ok m, s')) same
          (subst (λ z. store_message db cfg user conv1 params t now handled z ≡ (ok m, s'))
            (here3 ∙ (here2 ∙ here1)) h3) in
      let ((from, at), rest) = stored cfg user conv params t now handled s s' m v run in
      ((from ∙ found_user-id uid s user there, at), rest)
